-- ===== src/Callbacks/Denied.antt =====
-- What a press by a user without rights leaves as it was.
use gdrive_bot.Base.{◌≡◌, refl, Bool, true, false, eqb_ℤ, Result, ok, err, continue, ◌∙◌, ◌||◌}
use gdrive_bot.Guard.Answers.{Coherent, is_authorized_answer}
use gdrive_bot.Guard.Coherence.{allowed}
use gdrive_bot.Callbacks.{Env, World, Press, answer}
use gdrive_bot.Callbacks.Router.{admitted, dispatch}

or_false : (a b : Bool) → a ≡ false → b ≡ false → (a || b) ≡ false
or_false a b p q = cc

module _ (env : Env) where
  -- the Drive, the explorer states, the logins and the accounts at Google and rclone are the same
  abbrev pub Untouched : World env → World env → Type 0
  Untouched w w' =
      (w'.remote ≡ w.remote)
      × (w'.states ≡ w.states)
      × (w'.login.logins ≡ w.login.logins)
      × (w'.login.outside ≡ w.login.outside)

  refused-Untouched :
      (p : Press) (w : World env) (q : World env × Result Bool)
      → Untouched w q.0
      → ((b : Bool) → q.1 ≡ ok b → b ≡ false)
      → Untouched w (continue q (admitted env p)).0
  unfolding admitted answer
  refused-Untouched p w (v, ok true) u denied = cc (denied true refl)
  refused-Untouched p w (v, ok false) u denied = u
  refused-Untouched p w (v, err e) u denied = u

  -- Where the cache agrees with the database, and the database gives a user who is not the owner no
  -- right, no press of that user changes the Drive, an explorer state, a login or the outside.
  pub dispatch-Untouched :
      (p : Press) (w : World env)
      → Coherent env.login.users env.explorer.cache env.owner_id p.now
          (record { stored = w.login.users; cached = w.cached })
      → eqb_ℤ p.user_id env.owner_id ≡ false
      → allowed (env.login.users.docs w.login.users p.user_id) ≡ false
      → Untouched w (dispatch env p w).0
  unfolding dispatch
  dispatch-Untouched p w h o none_given =
      refused-Untouched p w _ (refl, refl, refl, refl)
        (λ b e.
          is_authorized_answer env.login.users env.explorer.cache env.owner_id p.now p.user_id
            p.username _ b h e
          ∙ or_false _ _ o none_given)
