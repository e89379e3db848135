-- ===== src/Database.antt =====
-- internal/database over an abstract MongoDB driver. A `Collection` is what the repositories ask of
-- the driver: documents are found and written by a unique key, or found by a filter. `docs` is
-- the content of the collection; a call may fail, and a failed
-- write may or may not have happened.
pub mod Tasks
pub mod Users
pub mod States
pub mod Assoc
pub mod Settings
use gdrive_bot.Base.{
  if◌then◌else◌, inl, inr, sym, subst, ◌∙◌, ℕ, ◌≡◌, ◌≢◌, Bool, true, false, Option, none, some,
  List, [], ◌∷◌, ◌⊎◌, Error, Result, ok, bytes, plain,
}

-- Membership in a list, as a sum.
abbrev pub In : {A : Type 0} → A → List A → Type 0
In x [] = ⊥
In x (y ∷ ys) = (x ≡ y) ⊎ In x ys

pub In-if_tail :
    {A : Type 0} (b : Bool) (x y : A) (ys : List A) → In x ys → In x (if b then y ∷ ys else ys)
In-if_tail true x y ys h = inr h
In-if_tail false x y ys h = h

pub In-if_head :
    {A : Type 0} (b : Bool) (x y : A) (ys : List A)
    → b ≡ true
    → x ≡ y
    → In x (if b then y ∷ ys else ys)
In-if_head b x y ys e q = subst (λ c. In x (if c then y ∷ ys else ys)) (sym e) (inl q)

pub record Collection (K V : Type 0) : Type 1 where
  pub Store : Type 0
  pub docs : Store → K → Option V
  -- FindOne by the unique key; no document is `none`
  pub find_one : Store → K → Result (Option V)
  -- FindOne by a filter
  pub find_first : Store → (V → Bool) → Result (Option V)
  -- Find and CountDocuments by a filter
  pub find_all : Store → (V → Bool) → Result (List V)
  pub count : Store → (V → Bool) → Result ℕ
  -- InsertOne, ReplaceOne, UpdateOne and DeleteOne by the unique key: the new document from the old
  pub write : Store → K → (Option V → Option V) → Store × Option Error
  -- InsertOne, which refuses a key that is taken
  pub insert_one : Store → K → V → Store × Option Error
  pub find_one_docs : (s : Store) (k : K) (o : Option V) → find_one s k ≡ ok o → o ≡ docs s k
  pub find_first_some :
      (s : Store) (p : V → Bool) (v : V)
      → find_first s p ≡ ok (some v)
      → (p v ≡ true) × ((k : K) × (docs s k ≡ some v))
  pub find_first_none :
      (s : Store) (p : V → Bool) (k : K) (v : V)
      → find_first s p ≡ ok none
      → docs s k ≡ some v
      → p v ≡ false
  pub find_all_sound :
      (s : Store) (p : V → Bool) (vs : List V) (v : V)
      → find_all s p ≡ ok vs
      → In v vs
      → (p v ≡ true) × ((k : K) × (docs s k ≡ some v))
  pub find_all_complete :
      (s : Store) (p : V → Bool) (vs : List V) (k : K) (v : V)
      → find_all s p ≡ ok vs
      → docs s k ≡ some v
      → p v ≡ true
      → In v vs
  pub write_docs :
      (s : Store) (k : K) (f : Option V → Option V)
      → (write s k f).1 ≡ none
      → docs (write s k f).0 k ≡ f (docs s k)
  -- a write of one document is atomic, also where it fails
  pub write_atomic :
      (s : Store) (k : K) (f : Option V → Option V)
      → (docs (write s k f).0 k ≡ f (docs s k)) ⊎ (docs (write s k f).0 k ≡ docs s k)
  pub write_other :
      (s : Store) (k : K) (f : Option V → Option V) (j : K)
      → k ≢ j
      → docs (write s k f).0 j ≡ docs s j
  pub insert_docs :
      (s : Store) (k : K) (v : V)
      → (insert_one s k v).1 ≡ none
      → (docs s k ≡ none) × (docs (insert_one s k v).0 k ≡ some v)
  pub insert_other :
      (s : Store) (k : K) (v : V) (j : K) → k ≢ j → docs (insert_one s k v).0 j ≡ docs s j

-- database.ErrNotFound
abbrev pub not_found : Error
not_found = plain (bytes "database: not found")

-- What holds of every document is kept by a write whose new document has it.
pub write_keeps :
    {K V : Type 0} (d : Discrete K) (col : Collection K V) (P : K → V → Type 0) (s : col.Store)
    (k : K) (f : Option V → Option V)
    → ((v : V) → f (col.docs s k) ≡ some v → P k v)
    → ((j : K) (v : V) → col.docs s j ≡ some v → P j v)
    → (j : K) (v : V) → col.docs (col.write s k f).0 j ≡ some v
    → P j v
write_keeps d col P s k f new old j v e = elim (d k j) [
  | yes same ↦
      subst (λ i. P i v) same
        (written (col.write_atomic s k f)
          (subst (λ i. col.docs (col.write s k f).0 i ≡ some v) (sym same) e))
  | no other ↦ old j v (sym (col.write_other s k f j other) ∙ e)
]
  where
    written :
        (col.docs (col.write s k f).0 k ≡ f (col.docs s k))
          ⊎ (col.docs (col.write s k f).0 k ≡ col.docs s k)
        → col.docs (col.write s k f).0 k ≡ some v
        → P k v
    written (inl a) h = new v (sym a ∙ h)
    written (inr a) h = old k v (sym a ∙ h)
