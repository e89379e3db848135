-- ===== src/Explorer/Render.antt =====
-- internal/explorer/explorer.go: renderText and renderKeyboard.
use gdrive_bot.Base.{
  ℕ, Bool, true, false, none, some, List, [], ◌∷◌, ◌++◌, map, Str, bytes, str_eq, if◌then◌else◌, ℤ,
  pos, eqb_ℤ, ltb_ℤ, add64, format_int,
}
use gdrive_bot.Drive.{Entry}
use gdrive_bot.Models.{ExplorerState}
use gdrive_bot.Utils.Format.{join, human_bytes, truncate_middle}

-- gotgbot.InlineKeyboardButton, with the fields that the bot sets
pub record Button : Type 0 where
  pub text : Str
  pub callback_data : Str

pub record View : Type 0 where
  pub text : Str
  pub keyboard : List (List Button)

abbrev pub button : Str → Str → Button
button t d = record { text = t; callback_data = d }

-- what HumanBytes prints; it prints every int64
unfoldable pub size_text : (ℕ → ℕ → Str) → ℤ → Str
unfolding human_bytes
size_text tenths n = elim (human_bytes tenths n) [ none ↦ [] | some s ↦ s ]

unfoldable pub entry_line : (ℕ → ℕ → Str) → Entry → Str
unfolding size_text
entry_line tenths e =
    if e.is_folder
    then bytes "📂 " ++ (e.name ++ bytes "\n")
    else bytes "📄 " ++ (e.name ++ (bytes " — " ++ (size_text tenths e.size ++ bytes "\n")))

unfoldable pub entry_lines : (ℕ → ℕ → Str) → List Entry → Str
unfolding entry_line
entry_lines tenths [] = []
entry_lines tenths (e ∷ es) = entry_line tenths e ++ entry_lines tenths es

unfoldable pub search_line : Str → Str
search_line query = if str_eq query [] then [] else bytes "🔎 Search: \"" ++ (query ++ bytes "\"\n")

unfoldable pub render_text : (ℕ → ℕ → Str) → ExplorerState → List Entry → Str
unfolding join search_line entry_lines
render_text tenths state [] =
    join (bytes " / ") (map (λ c. c.name) state.breadcrumb)
    ++ (bytes "\n" ++ (search_line state.search_query ++ bytes "\n(empty folder)"))
render_text tenths state (e ∷ es) =
    join (bytes " / ") (map (λ c. c.name) state.breadcrumb)
    ++ (bytes "\n"
        ++ (search_line state.search_query
            ++ (bytes "\n"
                ++ (entry_lines tenths (e ∷ es) ++ (bytes "\nPage " ++ format_int state.page)))))

-- one row for each entry
unfoldable pub entry_button : Entry → Button
unfolding truncate_middle
entry_button e =
    let label = truncate_middle e.name 40 in
    if e.is_folder
    then button (bytes "📂 " ++ label) (bytes "expl:open:" ++ e.id)
    else button (bytes "📄 " ++ label) (bytes "expl:file:" ++ e.id)

abbrev pub prev_button : Button
prev_button = button (bytes "⬅ Prev") (bytes "expl:prevpage")

abbrev pub next_button : Button
next_button = button (bytes "Next ➡") (bytes "expl:nextpage")

abbrev pub has_token : ℤ → List (ℤ × Str) → Bool
has_token page [] = false
has_token page ((p, t) ∷ ts) = if eqb_ℤ p page then true else has_token page ts

-- the row of page buttons, empty if there is neither
unfoldable pub nav_row : ExplorerState → List Button
nav_row state =
    (if ltb_ℤ (pos 1) state.page then prev_button ∷ [] else [])
    ++ (if has_token (add64 state.page (pos 1)) state.page_tokens then next_button ∷ [] else [])

abbrev pub controls : List Button
controls =
    button (bytes "🔙 Back") (bytes "expl:back")
    ∷ button (bytes "🏠 Home") (bytes "expl:home")
    ∷ button (bytes "🔄 Refresh") (bytes "expl:refresh")
    ∷ []

unfoldable pub search_row : Str → List Button
search_row query =
    if str_eq query []
    then button (bytes "🔍 Search") (bytes "expl:search") ∷ []
    else button (bytes "🔍 Search") (bytes "expl:search")
      ∷ button (bytes "❌ Clear Search") (bytes "expl:clearsearch")
      ∷ []

abbrev pub row_unless_empty : List Button → List (List Button)
row_unless_empty [] = []
row_unless_empty (b ∷ bs) = (b ∷ bs) ∷ []

unfoldable pub render_keyboard : ExplorerState → List Entry → List (List Button)
unfolding entry_button nav_row search_row
render_keyboard state entries =
    map (λ e. entry_button e ∷ []) entries
    ++ (row_unless_empty (nav_row state) ++ controls ∷ search_row state.search_query ∷ [])
