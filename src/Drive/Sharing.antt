-- ===== src/Drive/Sharing.antt =====
-- The sharing toggle of internal/drive/operations.go: what IsPublic says after SetPublic.
use gdrive_bot.Base.{
  ◌≡◌, ◌≢◌, refl, sym, ◌∙◌, ap, subst, Bool, true, false, Option, none, some, List, [], ◌∷◌, Str,
  bytes, str_eq, Error, Result, ok, err, ok_inj, inl, inr, ◌||◌, arith, map_error, Bool-cases,
  Result-cases, wrap,
}
use gdrive_bot.Database.{In}
use gdrive_bot.Drive.{FilesService, Permission, bind}
use gdrive_bot.Drive.Operations.{
  reported, any_public, then_rest, remove_public, remove_listed, set_public, is_public,
}

-- Documented behaviour of the permissions of a file that is in no shared drive.
pub record PermissionLaws (svc : FilesService) : Type 0 where
  -- a list holds all permissions of the file
  pub listed :
      (r : svc.Remote) (f : Str) (ps : List Permission)
      → svc.list_permissions r f ≡ ok ps
      → ps ≡ svc.permissions r f
  -- a permission that was created is there
  pub created :
      (r : svc.Remote) (f type role : Str)
      → (svc.create_permission r f type role).1 ≡ none
      → (p : Permission) × In p (svc.permissions (svc.create_permission r f type role).0 f)
        × (p.type ≡ type)
  -- one that was deleted is gone, and no other has come
  pub deleted :
      (r : svc.Remote) (f id : Str) (p : Permission)
      → (svc.delete_permission r f id).1 ≡ none
      → In p (svc.permissions (svc.delete_permission r f id).0 f)
      → In p (svc.permissions r f) × (p.id ≢ id)

abbrev is_anyone : Permission → Bool
is_anyone p = str_eq p.type (bytes "anyone")

any_public-In :
    (p : Permission) (ps : List Permission) → In p ps → is_anyone p ≡ true → any_public ps ≡ true
unfolding any_public
any_public-In p [] h e = absurd h
any_public-In p (q ∷ ps) (inl g) e = ap (λ b. b || any_public ps) (ap is_anyone (sym g) ∙ e)
any_public-In p (q ∷ ps) (inr h) e = ground (arith, any_public-In p ps h e)

any_public-witness :
    (ps : List Permission)
    → any_public ps ≡ true
    → (p : Permission) × In p ps × (is_anyone p ≡ true)
unfolding any_public
any_public-witness [] e = cc
any_public-witness (q ∷ ps) e =
    elim (is_anyone q)
        as (λ b.
          is_anyone q ≡ b
          → (b || any_public ps) ≡ true
          → (p : Permission) × In p (q ∷ ps) × (is_anyone p ≡ true)) [
            | true ↦ λ g _. (q, inl refl, g)
            | false ↦ λ _ h. (let (p, i, a) = any_public-witness ps h in (p, inr i, a))
          ]
      refl e

module _ (svc : FilesService) (laws : PermissionLaws svc) (f : Str) where
  -- no permission of the list that stands for anyone is left
  abbrev Removed : List Permission → svc.Remote → svc.Remote → Type 0
  Removed ps r r' =
      (p : Permission)
      → In p (svc.permissions r' f)
      → In p (svc.permissions r f) × ((In p ps × (is_anyone p ≡ true)) → ⊥)

  module _ (q : Permission) (ps : List Permission) where
    -- one permission deleted, and the rest of the loop behind it
    then_rest-Removed :
        (r : svc.Remote) (d : svc.Remote × Option Error)
        → svc.delete_permission r f q.id ≡ d
        → ((r' : svc.Remote)
            → (remove_public svc f ps r').1 ≡ ok tt
            → Removed ps r' (remove_public svc f ps r').0)
        → (then_rest svc d (remove_public svc f ps)).1 ≡ ok tt
        → Removed (q ∷ ps) r (then_rest svc d (remove_public svc f ps)).0
    then_rest-Removed r (r', none) g rest e p i =
        let (j, n) = rest r' e p i in
        let (k, ne) =
          laws.deleted r f q.id p (ap (λ d. d.1) g)
            (subst (λ d. In p (svc.permissions d.0 f)) (sym g) j) in
        (k, λ h. elim h.0 [ inl same ↦ ne (ap (λ x. x.id) same) | inr later ↦ n (later, h.1) ])
    then_rest-Removed r (r', some x) g rest e p i = cc

    kept-Removed :
        (r r' : svc.Remote) → is_anyone q ≡ false → Removed ps r r' → Removed (q ∷ ps) r r'
    kept-Removed r r' g gone p i =
        let (j, n) = gone p i in
        (j, λ h. elim h.0 [ inl same ↦ cc (h.1, same, g) | inr later ↦ n (later, h.1) ])

  remove_public-Removed :
      (ps : List Permission) (r : svc.Remote)
      → (remove_public svc f ps r).1 ≡ ok tt
      → Removed ps r (remove_public svc f ps r).0
  unfolding remove_public
  remove_public-Removed [] r e = λ p i. (i, λ h. h.0)
  remove_public-Removed (q ∷ ps) r e =
      elim (is_anyone q)
          as (λ b. is_anyone q ≡ b → (step b).1 ≡ ok tt → Removed (q ∷ ps) r (step b).0) [
            | true ↦ λ _ h. then_rest-Removed q ps r _ refl (remove_public-Removed ps) h
            | false ↦ λ g h. kept-Removed q ps r _ g (remove_public-Removed ps r h)
          ]
        refl e
    where
      step : Bool → svc.Remote × Result (Unit {0})
      step b = elim b [
        | true ↦ then_rest svc (svc.delete_permission r f q.id) (remove_public svc f ps)
        | false ↦ remove_public svc f ps r
      ]

  -- the answer of IsPublic is about the permissions that the file has
  is_public-ok :
      (r : svc.Remote) (b : Bool) → is_public svc f r ≡ ok b → any_public (svc.permissions r f) ≡ b
  unfolding is_public
  is_public-ok r b h = elim (Result-cases (svc.list_permissions r f)) [
    | inl (ps, g) ↦
        ap any_public (sym (laws.listed r f ps g))
        ∙ ok_inj (
            subst
              (λ l.
                (bind (map_error (wrap (bytes "drive: list permissions: ")) l)
                  (λ ps. ok (any_public ps)))
                ≡ ok b)
              g h)
    | inr (x, g) ↦ cc (
        subst
          (λ l.
            (bind (map_error (wrap (bytes "drive: list permissions: ")) l)
              (λ ps. ok (any_public ps)))
            ≡ ok b)
          g h)
  ]

  created-public :
      (r : svc.Remote) (d : svc.Remote × Option Error)
      → svc.create_permission r f (bytes "anyone") (bytes "reader") ≡ d
      → (reported (bytes "drive: set public: ") d).1 ≡ ok tt
      → any_public (svc.permissions (reported (bytes "drive: set public: ") d).0 f) ≡ true
  unfolding str_eq
  created-public r (r', none) g e =
      let (p, i, a) = laws.created r f (bytes "anyone") (bytes "reader") (ap (λ d. d.1) g) in
      any_public-In p (svc.permissions r' f) (subst (λ d. In p (svc.permissions d.0 f)) g i)
        (ap (λ t. str_eq t (bytes "anyone")) a)
  created-public r (r', some x) g e = cc

  listed-private :
      (r : svc.Remote) (l : Result (List Permission))
      → svc.list_permissions r f ≡ l
      → (remove_listed svc f l r).1 ≡ ok tt
      → any_public (svc.permissions (remove_listed svc f l r).0 f) ≡ false
  unfolding remove_listed
  listed-private r (err x) g e = cc
  listed-private r (ok ps) g e =
      elim (Bool-cases (any_public (svc.permissions (remove_public svc f ps r).0 f))) [
        | inr gone ↦ gone
        | inl there ↦
            (let (p, i, a) =
                any_public-witness (svc.permissions (remove_public svc f ps r).0 f) there in
              let (j, n) = remove_public-Removed ps r e p i in
              absurd (n (subst (In p) (sym (laws.listed r f ps g)) j, a)))
      ]

  -- Where SetPublic succeeds, IsPublic, where it succeeds next, answers what was asked for.
  pub is_public-set_public :
      (on : Bool) (r : svc.Remote) (b : Bool)
      → (set_public svc f on r).1 ≡ ok tt
      → is_public svc f (set_public svc f on r).0 ≡ ok b
      → b ≡ on
  unfolding set_public
  is_public-set_public true r b e h = sym (is_public-ok _ b h) ∙ created-public r _ refl e
  is_public-set_public false r b e h = sym (is_public-ok _ b h) ∙ listed-private r _ refl e
