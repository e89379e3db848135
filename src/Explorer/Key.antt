-- ===== src/Explorer/Key.antt =====
-- The cache keys of internal/explorer: which pages a key names, and which keys Refresh drops.
use gdrive_bot.Base.{
  drop, ◌≡◌, ◌≢◌, refl, sym, ap, ◌∙◌, subst, true, [], ◌∷◌, ◌++◌, append_assoc, Str, bytes,
  has_prefix, has_prefix-append, has_prefix-split, ℤ, pos, negsuc, format_int, format_nat-digits,
  format_nat-injective, IsDigit, All, arith, suc,
}
use gdrive_bot.Database.States.{StateKey}
use gdrive_bot.Explorer.State.{list_cache_key, refresh_prefix}

abbrev pub NoColon : Str → Type 0
NoColon = All (λ c. c ≢ b':')

digits-NoColon : (s : Str) → All IsDigit s → NoColon s
digits-NoColon [] h = tt
digits-NoColon (c ∷ s) h = (omega arith, digits-NoColon s h.1)

pub format_int-NoColon : (n : ℤ) → NoColon (format_int n)
unfolding format_int
format_int-NoColon (pos n) = digits-NoColon _ (format_nat-digits n)
format_int-NoColon (negsuc n) = (omega arith, digits-NoColon _ (format_nat-digits (suc n)))

-- The first colon of a text splits it in one way.
split_colon :
    (a b x y : Str) → NoColon a → NoColon b → a ++ b':' ∷ x ≡ b ++ b':' ∷ y → (a ≡ b) × (x ≡ y)
split_colon [] [] x y ha hb e = ground arith
split_colon [] (d ∷ b) x y ha hb e = absurd (hb.0 (ground arith))
split_colon (c ∷ a) [] x y ha hb e = absurd (ha.0 (ground arith))
split_colon (c ∷ a) (d ∷ b) x y ha hb e = ground (arith, split_colon a b x y)

has_colon : (b y : Str) → ¬ NoColon (b ++ b':' ∷ y)
has_colon [] y h = h.0 refl
has_colon (d ∷ b) y h = has_colon b y h.1

-- So does the last colon, where what follows it has none.
split_last :
    (a b x y : Str) → NoColon x → NoColon y → a ++ b':' ∷ x ≡ b ++ b':' ∷ y → (a ≡ b) × (x ≡ y)
split_last [] [] x y hx hy e = ground arith
split_last [] (d ∷ b) x y hx hy e = absurd (has_colon b y (subst NoColon (ap (drop 1) e) hx))
split_last (c ∷ a) [] x y hx hy e = absurd (has_colon a x (subst NoColon (sym (ap (drop 1) e)) hy))
split_last (c ∷ a) (d ∷ b) x y hx hy e = ground (arith, split_last a b x y)

not_minus : (s t : Str) → All IsDigit s → s ≢ b'-' ∷ t
not_minus [] t h e = cc
not_minus (c ∷ s) t h e = ground arith

pub format_int-injective : (m n : ℤ) → format_int m ≡ format_int n → m ≡ n
unfolding format_int
format_int-injective (pos m) (pos n) e = ap pos (format_nat-injective m n e)
format_int-injective (pos m) (negsuc n) e = absurd (not_minus _ _ (format_nat-digits m) e)
format_int-injective (negsuc m) (pos n) e = absurd (not_minus _ _ (format_nat-digits n) (sym e))
format_int-injective (negsuc m) (negsuc n) e =
    ground (arith, format_nat-injective (suc m) (suc n) (ap (drop 1) e))

key_eq : {u v c d i j : ℤ} → u ≡ v → c ≡ d → i ≡ j → ◌≡◌ {A = StateKey} (u, c, i) (v, d, j)
key_eq p q r = λ t. (p t, q t, r t)

-- A message's prefix and what follows it, as one chain of fields.
regroup :
    (a b c r : Str)
    → (bytes "explist:" ++ (a ++ b':' ∷ (b ++ b':' ∷ (c ++ b':' ∷ [])))) ++ r
      ≡ bytes "explist:" ++ (a ++ b':' ∷ (b ++ b':' ∷ (c ++ b':' ∷ r)))
regroup a b c r = simp append_assoc

-- Two pages have one key only if they are the same page of the same message, where no folder ID
-- holds a colon; the search text may hold any byte.
pub list_cache_key-injective :
    (k l : StateKey) (f g q r : Str) (m n : ℤ)
    → NoColon f
    → NoColon g
    → list_cache_key k f q m ≡ list_cache_key l g r n
    → (k ≡ l) × (f ≡ g) × (q ≡ r) × (m ≡ n)
unfolding list_cache_key
list_cache_key-injective (u, c, i) (v, d, j) f g q r m n hf hg e =
    let s1 =
      split_colon (format_int u) (format_int v) _ _ (format_int-NoColon u) (format_int-NoColon v)
        (ap (drop 8) e) in
    let s2 =
      split_colon (format_int c) (format_int d) _ _ (format_int-NoColon c) (format_int-NoColon d)
        s1.1 in
    let s3 =
      split_colon (format_int i) (format_int j) _ _ (format_int-NoColon i) (format_int-NoColon j)
        s2.1 in
    let s4 = split_colon f g _ _ hf hg s3.1 in
    let s5 = split_last q r _ _ (format_int-NoColon m) (format_int-NoColon n) s4.1 in
    (
      key_eq (format_int-injective u v s1.0) (format_int-injective c d s2.0)
          (format_int-injective i j s3.0),
      s4.0,
      s5.0,
      format_int-injective m n s5.1,
    )

-- Every page of a message is under the prefix that Refresh drops, whatever folder, search and page.
pub list_cache_key-HasPrefix :
    (k : StateKey) (f q : Str) (m : ℤ)
    → has_prefix (list_cache_key k f q m) (refresh_prefix k) ≡ true
unfolding list_cache_key refresh_prefix
list_cache_key-HasPrefix (u, c, i) f q m =
    rw
      (sym (
        regroup (format_int u) (format_int c) (format_int i)
          (f ++ b':' ∷ (q ++ b':' ∷ format_int m))))
      (has_prefix-append _ _)

-- And no page of another message is.
pub refresh_spares :
    (k l : StateKey) (f q : Str) (m : ℤ)
    → has_prefix (list_cache_key l f q m) (refresh_prefix k) ≡ true
    → k ≡ l
unfolding list_cache_key refresh_prefix
refresh_spares (u, c, i) (v, d, j) f q m h =
    let e = sym (regroup (format_int u) (format_int c) (format_int i) _) ∙ has_prefix-split _ _ h in
    let s1 =
      split_colon (format_int u) (format_int v) _ _ (format_int-NoColon u) (format_int-NoColon v)
        (ap (drop 8) e) in
    let s2 =
      split_colon (format_int c) (format_int d) _ _ (format_int-NoColon c) (format_int-NoColon d)
        s1.1 in
    let s3 =
      split_colon (format_int i) (format_int j) _ _ (format_int-NoColon i) (format_int-NoColon j)
        s2.1 in
    key_eq (format_int-injective u v s1.0) (format_int-injective c d s2.0)
      (format_int-injective i j s3.0)
