-- ===== src/Progress/Order.antt =====
-- internal/progress/editor.go: which of the updates are sent, and in what order.
use gdrive_bot.Base.{◌≡◌, ◌≢◌, refl, sym, ◌∙◌, ap, subst, Option, none, some, List, [], ◌∷◌, Str}
use gdrive_bot.Progress.{
  Loop, waiting, holding, exited, Closing, not_called, awaiting_loop, flushing, closed, Editor,
  new_editor, update, send, take_pending, send_held, exit_loop, cancel_loop, take_last, send_last,
  Reach, started, updated, ticked, held_sent, canceled, ended, last_taken, last_sent,
}

-- `Sub xs ys`: the list `ys` with some items left out
pub data Sub : List Str → List Str → Type 0 where
  nil : Sub [] []
  keep : (x : Str) (xs ys : List Str) → Sub xs ys → Sub (x ∷ xs) (x ∷ ys)
  skip : (xs : List Str) (y : Str) (ys : List Str) → Sub xs ys → Sub xs (y ∷ ys)

abbrev pub newest : List Str → Option Str
newest [] = none
newest (x ∷ xs) = some x

-- the text that a place holds, before the others
abbrev before : Option Str → List Str → List Str
before none xs = xs
before (some x) xs = x ∷ xs

abbrev in_loop : Loop → List Str → List Str
in_loop waiting xs = xs
in_loop (holding o) xs = before o xs
in_loop exited xs = xs

abbrev in_closing : Closing → List Str → List Str
in_closing not_called xs = xs
in_closing awaiting_loop xs = xs
in_closing (flushing o) xs = before o xs
in_closing closed xs = xs

-- the texts that were sent or wait to be, newest first
abbrev known : Editor → List Str
known e = before e.pending (in_loop e.loop (in_closing e.closing e.sent))

-- the last text is taken only when the goroutine has ended
abbrev Ordered : Loop → Closing → Type 0
Ordered l not_called = Unit
Ordered l awaiting_loop = Unit
Ordered l (flushing o) = l ≡ exited
Ordered l closed = l ≡ exited

abbrev Inv : List Str → Editor → Type 0
Inv us e = Sub (known e) us × (newest (known e) ≡ newest us) × Ordered e.loop e.closing

Sub-tail : (x : Str) (xs ys : List Str) → Sub (x ∷ xs) ys → Sub xs ys
Sub-tail _ _ _ (keep x xs ys s) = skip xs x ys s
Sub-tail x xs _ (skip _ y ys s) = skip xs y ys (Sub-tail x xs ys s)

Sub-before : (o : Option Str) (xs ys : List Str) → Sub (before o xs) ys → Sub xs ys
Sub-before none xs ys s = s
Sub-before (some x) xs ys s = Sub-tail x xs ys s

-- A step that leaves the known texts as they are.
same_known :
    (us xs ys : List Str)
    → xs ≡ ys
    → Sub xs us × (newest xs ≡ newest us)
    → Sub ys us × (newest ys ≡ newest us)
same_known us xs ys e h = subst (λ l. Sub l us × (newest l ≡ newest us)) e h

before-send : (o : Option Str) (sent : List Str) → send o sent ≡ before o sent
unfolding send
before-send none sent = refl
before-send (some x) sent = refl

running-Ordered : (l : Loop) (c : Closing) → l ≢ exited → Ordered l c → (k : Loop) → Ordered k c
running-Ordered l not_called n h k = tt
running-Ordered l awaiting_loop n h k = tt
running-Ordered l (flushing o) n h k = absurd (n h)
running-Ordered l closed n h k = absurd (n h)

-- while the goroutine runs, Close holds no text
in_closing_running :
    (l : Loop) (c : Closing) → l ≢ exited → Ordered l c → (xs : List Str) → in_closing c xs ≡ xs
in_closing_running l not_called n h xs = refl
in_closing_running l awaiting_loop n h xs = refl
in_closing_running l (flushing o) n h xs = absurd (n h)
in_closing_running l closed n h xs = absurd (n h)

ticked-Inv :
    (us : List Str) (p : Option Str) (c : Closing) (sent : List Str)
    → Inv us (record { pending = p; loop = waiting; closing = c; sent = sent })
    → Inv us (record { pending = none; loop = holding p; closing = c; sent = sent })
ticked-Inv us p c sent (s, n, o) = (s, n, running-Ordered waiting c (λ e. cc) o (holding p))

held_sent-Inv :
    (us : List Str) (p held : Option Str) (c : Closing) (sent : List Str)
    → Inv us (record { pending = p; loop = holding held; closing = c; sent = sent })
    → Inv us (record { pending = p; loop = waiting; closing = c; sent = send held sent })
held_sent-Inv us p held c sent (s, n, o) =
    let running : holding held ≢ exited = λ e. cc in
    let o' = running-Ordered (holding held) c running o waiting in
    let idle : waiting ≢ exited = λ e. cc in
    let same : before p (before held (in_closing c sent))
        ≡ before p (in_closing c (send held sent)) =
      ap (before p) (
        ap (before held) (in_closing_running _ c running o sent)
        ∙ (sym (before-send held sent) ∙ sym (in_closing_running _ c idle o' (send held sent)))) in
    let (s', n') = same_known us _ _ same (s, n) in (s', n', o')

last_sent-Inv :
    (us : List Str) (p last : Option Str) (l : Loop) (sent : List Str)
    → Inv us (record { pending = p; loop = l; closing = flushing last; sent = sent })
    → Inv us (record { pending = p; loop = l; closing = closed; sent = send last sent })
last_sent-Inv us p last l sent (s, n, o) =
    let (s', n') =
      same_known us _ _ (ap (λ xs. before p (in_loop l xs)) (sym (before-send last sent))) (s, n) in
    (s', n', o)

last_taken-Inv :
    (us : List Str) (p : Option Str) (l : Loop) (sent : List Str)
    → l ≡ exited
    → Inv us (record { pending = p; loop = l; closing = awaiting_loop; sent = sent })
    → Inv us (record { pending = none; loop = l; closing = flushing p; sent = sent })
last_taken-Inv us p l sent q h =
    subst
      (λ k.
        Inv us (record { pending = p; loop = k; closing = awaiting_loop; sent = sent })
        → Inv us (record { pending = none; loop = k; closing = flushing p; sent = sent }))
      (sym q) (λ (s, n, o). (s, n, refl)) h

ended-Inv :
    (us : List Str) (p : Option Str) (c : Closing) (sent : List Str)
    → Inv us (record { pending = p; loop = waiting; closing = c; sent = sent })
    → Inv us (record { pending = p; loop = exited; closing = c; sent = sent })
ended-Inv us p c sent (s, n, o) = (s, n, running-Ordered waiting c (λ e. cc) o exited)

canceled-Inv :
    (us : List Str) (p : Option Str) (l : Loop) (sent : List Str)
    → Inv us (record { pending = p; loop = l; closing = not_called; sent = sent })
    → Inv us (record { pending = p; loop = l; closing = awaiting_loop; sent = sent })
canceled-Inv us p l sent h = h

updated-Inv : (us : List Str) (e : Editor) (text : Str) → Inv us e → Inv (text ∷ us) (update text e)
unfolding update
updated-Inv us e text (s, n, o) = (keep text _ us (Sub-before e.pending _ us s), refl, o)

Reach-Inv : (us : List Str) (e : Editor) → Reach us e → Inv us e
unfolding new_editor update take_pending send_held exit_loop cancel_loop take_last send_last
Reach-Inv _ _ started = (nil, refl, tt)
Reach-Inv _ _ (updated vs d text r) = updated-Inv vs d text (Reach-Inv vs d r)
Reach-Inv _ _ (ticked us d r w) =
    ticked-Inv us d.pending d.closing d.sent
      (subst (λ l. Inv us (record d { loop = l })) w (Reach-Inv us d r))
Reach-Inv _ _ (held_sent us d held r w) =
    held_sent-Inv us d.pending held d.closing d.sent
      (subst (λ l. Inv us (record d { loop = l })) w (Reach-Inv us d r))
Reach-Inv _ _ (canceled us d r w) =
    canceled-Inv us d.pending d.loop d.sent
      (subst (λ c. Inv us (record d { closing = c })) w (Reach-Inv us d r))
Reach-Inv _ _ (ended us d r w n) =
    ended-Inv us d.pending d.closing d.sent
      (subst (λ l. Inv us (record d { loop = l })) w (Reach-Inv us d r))
Reach-Inv _ _ (last_taken us d r w c) =
    last_taken-Inv us d.pending d.loop d.sent w
      (subst (λ k. Inv us (record d { closing = k })) c (Reach-Inv us d r))
Reach-Inv _ _ (last_sent us d last r c) =
    last_sent-Inv us d.pending last d.loop d.sent
      (subst (λ k. Inv us (record d { closing = k })) c (Reach-Inv us d r))

-- Once Close has returned, and no update came after it took the last text, the last text that was sent is that of the newest update; without an update none was sent.
pub closed_newest :
    (us : List Str) (e : Editor)
    → Reach us e
    → e.closing ≡ closed
    → e.pending ≡ none
    → newest e.sent ≡ newest us
closed_newest us e r c p =
    let (_, n, o) = Reach-Inv us e r in
    let ended : e.loop ≡ exited = subst (Ordered e.loop) c o in
    let all : known e ≡ e.sent =
      ap (λ q. before q (in_loop e.loop (in_closing e.closing e.sent))) p
      ∙ (ap (λ l. in_loop l (in_closing e.closing e.sent)) ended
          ∙ ap (λ k. in_closing k e.sent) c) in
    ap newest (sym all) ∙ n

Sub-in_loop : (l : Loop) (xs ys : List Str) → Sub (in_loop l xs) ys → Sub xs ys
Sub-in_loop waiting xs ys s = s
Sub-in_loop (holding o) xs ys s = Sub-before o xs ys s
Sub-in_loop exited xs ys s = s

Sub-in_closing : (c : Closing) (xs ys : List Str) → Sub (in_closing c xs) ys → Sub xs ys
Sub-in_closing not_called xs ys s = s
Sub-in_closing awaiting_loop xs ys s = s
Sub-in_closing (flushing o) xs ys s = Sub-before o xs ys s
Sub-in_closing closed xs ys s = s

-- At any time the texts that were sent are those of some of the updates, each at most once and in
-- their order.
pub sent-Sub : (us : List Str) (e : Editor) → Reach us e → Sub e.sent us
sent-Sub us e r =
    Sub-in_closing e.closing e.sent us
      (Sub-in_loop e.loop _ us (Sub-before e.pending _ us (Reach-Inv us e r).0))
