-- ===== src/Owner/Broadcast.antt =====
-- internal/handlers/ownercommands.go: whom /broadcast reaches.
use gdrive_bot.Base.{
  ℕ, ◌+◌, ◌-◌, ◌≡◌, ◌≢◌, ◌∙◌, refl, sym, ap, Bool, true, false, some, List, [], ◌∷◌, ◌++◌, Str,
  bytes, str_eq, str_eq_iff, ℤ, eqb_ℤ, eqb_ℤ_iff, eqb_ℤ_refl, if◌then◌else◌, length, ok, arith, inl,
  inr,
}
use gdrive_bot.Database.{In}
use gdrive_bot.Database.Users.{may_use, list_authorized}
use gdrive_bot.Models.{User}
use gdrive_bot.Owner.{Env, World, sent_text, reply, require_owner, broadcast_to, broadcast}
use gdrive_bot.Owner.Laws.{others, send_all, deliver-others}

In-unless_head :
    {A : Type 0} (b : Bool) (x y : A) (ys : List A)
    → b ≡ false
    → x ≡ y
    → In x (if b then ys else y ∷ ys)
In-unless_head true x y ys e q = cc
In-unless_head false x y ys e q = inl q

In-unless_tail :
    {A : Type 0} (b : Bool) (x y : A) (ys : List A) → In x ys → In x (if b then ys else y ∷ ys)
In-unless_tail true x y ys i = i
In-unless_tail false x y ys i = inr i

others-In :
    (caller : ℤ) (u : User) (us : List User)
    → u.telegram_id ≢ caller
    → In u us
    → In u.telegram_id (others caller us)
others-In caller u [] h i = i
others-In caller u (v ∷ vs) h (inl e) =
    In-unless_head (eqb_ℤ v.telegram_id caller) u.telegram_id v.telegram_id (others caller vs)
      (ground (arith, eqb_ℤ_iff v.telegram_id caller, h, ap (λ x. x.telegram_id) e))
      (ap (λ x. x.telegram_id) e)
others-In caller u (v ∷ vs) h (inr i) =
    In-unless_tail (eqb_ℤ v.telegram_id caller) u.telegram_id v.telegram_id (others caller vs)
      (others-In caller u vs h i)

others_from :
    (caller id : ℤ) (us : List User)
    → In id (others caller us)
    → (id ≢ caller) × ((u : User) × In u us × (u.telegram_id ≡ id))
others_from caller id [] i = absurd i
others_from caller id (v ∷ vs) i =
    elim (eqb_ℤ v.telegram_id caller)
        as (λ b.
          eqb_ℤ v.telegram_id caller ≡ b
          → In id (if b then others caller vs else v.telegram_id ∷ others caller vs)
          → (id ≢ caller) × ((u : User) × In u (v ∷ vs) × (u.telegram_id ≡ id))) [
            | true ↦ λ e j. later (others_from caller id vs j)
            | false ↦ λ e j. elim j [
              | inl q ↦ (ground (arith, eqb_ℤ_iff v.telegram_id caller, q), (v, inl refl, sym q))
              | inr k ↦ later (others_from caller id vs k)
            ]
          ]
      refl i
  where
    later :
        (id ≢ caller) × ((u : User) × In u vs × (u.telegram_id ≡ id))
        → (id ≢ caller) × ((u : User) × In u (v ∷ vs) × (u.telegram_id ≡ id))
    later (n, (u, k, e)) = (n, (u, inr k, e))

not_empty : (s : Str) → s ≢ [] → str_eq s [] ≡ false
not_empty s h = ground (arith, str_eq_iff s [])

module _ (env : Env) where
  -- What a /broadcast of the owner does, where the database's answer has these users.
  pub record Announced (msg : Str) (us : List User) (w : World env) : Type 0 where
    -- every stored user who may use the bot, but the owner, is sent the text
    reaches :
        (k : ℤ) (u : User)
        → env.login.users.docs w.login.users k ≡ some u
        → may_use u ≡ true
        → u.telegram_id ≢ env.owner_id
        → In u.telegram_id (others env.owner_id us)
    -- and nobody else
    only :
        (id : ℤ)
        → In id (others env.owner_id us)
        → (id ≢ env.owner_id)
          × ((u : User) × (k : ℤ) × (env.login.users.docs w.login.users k ≡ some u)
              × (may_use u ≡ true)
              × (u.telegram_id ≡ id))
    -- one message for each, then the report
    sends :
        let (c, failed) = send_all env (bytes "📢 " ++ msg) (others env.owner_id us) w.login.chat in
        broadcast env env.owner_id msg w
        ≡ reply env
            (sent_text (length us - failed) (length us))
            (record w { login = record w.login { chat = c } })

  counted_back : (n f t : ℕ) → n + f ≡ 0 + t → n ≡ t - f
  counted_back n f t h = omega arith

  reported :
      (k : ℕ) (w : World env) {c d : env.login.telegram.Chat} {n m : ℕ}
      → c ≡ d
      → n ≡ m
      → reply env (sent_text n k) (record w { login = record w.login { chat = c } })
        ≡ reply env (sent_text m k) (record w { login = record w.login { chat = d } })
  reported k w {c} {d} {n} {m} p q =
      ap (λ x. reply env (sent_text n k) (record w { login = record w.login { chat = x } })) p
      ∙ ap (λ x. reply env (sent_text x k) (record w { login = record w.login { chat = d } })) q

  -- Where the owner sends /broadcast with a text and the database answers, one message is sent for each authorized user but the owner, in the order of the answer, to every stored user who may use the bot and to nobody else; the report counts the users of the answer less the messages that failed.
  pub broadcast-Announced :
      (msg : Str) (us : List User) (w : World env)
      → msg ≢ []
      → (list_authorized env.login.users w.login.users).1 ≡ ok us
      → Announced msg us w
  unfolding broadcast require_owner broadcast_to list_authorized
  broadcast-Announced msg us w ne e =
      let all = others env.owner_id us in
      let text = bytes "📢 " ++ msg in
      let (same, counted) = deliver-others env env.owner_id text us 0 w.login.chat in
      record {
        reaches = λ k u d may ne.
            others-In env.owner_id u us ne
              (env.login.users.find_all_complete w.login.users may_use us k u e d may);
        only = λ id i.
            let (ne, (u, j, q)) = others_from env.owner_id id us i in
            let (may, (k, d)) = env.login.users.find_all_sound w.login.users may_use us u e j in
            (ne, (u, k, d, may, q));
        sends =
            rw (eqb_ℤ_refl env.owner_id, not_empty msg ne, e)
              (reported (length us) w same (counted_back _ _ (length us) counted));
      }
