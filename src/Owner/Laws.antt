-- ===== src/Owner/Laws.antt =====
-- internal/handlers/ownercommands.go: the loop of /broadcast as a walk over the other users.
use gdrive_bot.Base.{
  ℕ, suc, ◌+◌, ◌≡◌, refl, Bool, true, false, Option, none, some, List, [], ◌∷◌, Str, ℤ, eqb_ℤ,
  if◌then◌else◌, length, Error, arith,
}
use gdrive_bot.Models.{User}
use gdrive_bot.Owner.{Env, counted, deliver}

-- the users other than the sender
abbrev pub others : ℤ → List User → List ℤ
others caller [] = []
others caller (u ∷ us) =
    let rest = others caller us in if eqb_ℤ u.telegram_id caller then rest else u.telegram_id ∷ rest

abbrev pub failure : Option Error → ℕ
failure none = 0
failure (some e) = 1

module _ (env : Env) where
  open env.login.telegram use {Chat, send}

  -- one message to each, and how many failed
  abbrev pub send_all : Str → List ℤ → Chat → Chat × ℕ
  send_all text [] c = (c, 0)
  send_all text (id ∷ ids) c =
      let (c', e) = send id text c in let (d, n) = send_all text ids c' in (d, failure e + n)

  abbrev Sent : ℕ → Chat × ℕ → Chat × ℕ → Type 0
  Sent n p q = (p.0 ≡ q.0) × (p.1 + q.1 ≡ n)

  counted-failure : (n : ℕ) (e : Option Error) → counted env e n + failure e ≡ suc n
  counted-failure n none = omega arith
  counted-failure n (some e) = omega arith

  deliver_step :
      (caller : ℤ) (text : Str) (u : User) (us : List User) (n : ℕ) (c : Chat) (b : Bool)
      → ((m : ℕ) (d : Chat)
          → Sent
              (m + length us)
              (deliver env caller text us m d)
              (send_all text (others caller us) d))
      → Sent
          (n + suc (length us))
          (deliver env caller text us
            (counted env (if b then (c, none) else send u.telegram_id text c).1 n)
            (if b then (c, none) else send u.telegram_id text c).0)
          (send_all text (if b then others caller us else u.telegram_id ∷ others caller us) c)
  deliver_step caller text u us n c true k = ((k (suc n) c).0, omega (arith, (k (suc n) c).1))
  deliver_step caller text u us n c false k =
      let p = send u.telegram_id text c in
      let h = k (counted env p.1 n) p.0 in (h.0, omega (arith, h.1, counted-failure n p.1))

  -- the loop sends one message to each of the others, and counts the sender and those whose message did not fail
  pub deliver-others :
      (caller : ℤ) (text : Str) (us : List User) (n : ℕ) (c : Chat)
      → ((deliver env caller text us n c).0 ≡ (send_all text (others caller us) c).0)
        × ((deliver env caller text us n c).1 + (send_all text (others caller us) c).1
            ≡ n + length us)
  unfolding deliver
  deliver-others caller text [] n c = (refl, omega arith)
  deliver-others caller text (u ∷ us) n c =
      deliver_step caller text u us n c (eqb_ℤ u.telegram_id caller)
        (λ m d. deliver-others caller text us m d)
