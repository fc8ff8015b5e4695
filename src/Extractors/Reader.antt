-- ===== src/Extractors/Reader.antt =====
-- What crates/extractors uses of `std::io::Read` and byteorder, on the bytes that are left.
-- A reader gives a value and the rest, or `none` for an error, UnexpectedEof first of all.
-- A writer is the bytes that it appends: a failed write of a file is I/O and not modelled.
use cmangos_tbc.Base.{
  ℕ, ◌<◌, ◌^◌, ◌≡◌, ◌∙◌, refl, ap, Bool, Option, none, some, List, [], ◌∷◌, ◌++◌, if◌then◌else◌,
  ltb, length, take, drop, zero, suc, arith, append_assoc, length-append, take-append, drop-append,
  All, bytes_eq, bytes_eq_refl, Option-cases, length-take, take-append-drop, sym, inl, inr,
}
use cmangos_tbc.Base.Bytes.{from_le, to_le, length-to_le, from_le-to_le}

abbrev pub Reader : Type 0 → Type 0
Reader A = List ℕ → Option (A × List ℕ)

abbrev pub pure : {A : Type 0} → A → Reader A
pure a bs = some (a, bs)

infixl 5 ◌>>=◌ ◌>>◌
unfoldable pub ◌>>=◌ : {A B : Type 0} → Reader A → (A → Reader B) → Reader B
◌>>=◌ m f bs = elim (m bs) [ none ↦ none | some (a, rest) ↦ f a rest ]

abbrev pub ◌>>◌ : {B : Type 0} → Reader (Unit {0}) → Reader B → Reader B
m >> k = m >>= λ _. k

-- `bail!` unless the test holds.
unfoldable pub ensure : Bool → Reader (Unit {0})
ensure b bs = if b then some (tt, bs) else none

unfoldable pub read_exact : ℕ → Reader (List ℕ)
read_exact k bs = if ltb (length bs) k then none else some (take k bs, drop k bs)

-- A little-endian number of `k` bytes.
unfoldable pub read_number : ℕ → Reader ℕ
read_number k = read_exact k >>= λ bs. pure (from_le bs)

unfoldable pub read_u8 : Reader ℕ
read_u8 = read_number 1

unfoldable pub read_u16 : Reader ℕ
read_u16 = read_number 2

unfoldable pub read_u32 : Reader ℕ
read_u32 = read_number 4

-- An f32 is its bit pattern, an i32 the u32 with the same bits.
unfoldable pub read_f32 : Reader ℕ
read_f32 = read_number 4

-- The bytes of a tag must follow.
unfoldable pub read_tag : List ℕ → Reader (Unit {0})
read_tag expected = read_exact (length expected) >>= λ bs. ensure (bytes_eq bs expected)

-- `for _ in 0..n` around a read that pushes its value.
unfoldable pub repeat : {A : Type 0} → Reader A → ℕ → Reader (List A)
repeat r zero = pure []
repeat r (suc n) = r >>= λ a. repeat r n >>= λ rest. pure (a ∷ rest)

-- The bytes of the items, one after the other.
unfoldable pub concat_map : {A : Type 0} → (A → List ℕ) → List A → List ℕ
concat_map f [] = []
concat_map f (x ∷ xs) = f x ++ concat_map f xs

-- The reader takes exactly the bytes `bs`, whatever follows, and gives `a`.
abbrev pub Reads : {A : Type 0} → Reader A → List ℕ → A → Type 0
Reads r bs a = (rest : List ℕ) → r (bs ++ rest) ≡ some (a, rest)

pub pure-Reads : {A : Type 0} (a : A) → Reads (pure a) [] a
pure-Reads a rest = refl

pub bind-Reads :
    {A B : Type 0} (r : Reader A) (f : A → Reader B) (bs cs : List ℕ) {a : A} {b : B}
    → Reads r bs a
    → Reads (f a) cs b
    → Reads (r >>= f) (bs ++ cs) b
unfolding ◌>>=◌
bind-Reads r f bs cs h k rest = rw (append_assoc bs cs rest, ◌>>=◌, h (cs ++ rest)) (k rest)

pub read_exact-Reads : (bs : List ℕ) → Reads (read_exact (length bs)) bs bs
unfolding read_exact
read_exact-Reads bs rest =
    rw (take-append bs rest, drop-append bs rest) (ground (arith, length-append {0} bs rest))

pub read_number-Reads : (k v : ℕ) → v < 256 ^ k → Reads (read_number k) (to_le k v) v
unfolding read_number ◌>>=◌
read_number-Reads k v h rest =
    let e = read_exact-Reads (to_le k v) rest in
    let taken : read_exact k (to_le k v ++ rest) ≡ some (to_le k v, rest) =
      ap (λ n. read_exact n (to_le k v ++ rest)) (sym (length-to_le k v)) ∙ e in
    rw (◌>>=◌, taken, from_le-to_le k v h)

pub read_tag-Reads : (tag : List ℕ) → Reads (read_tag tag) tag tt
unfolding read_tag ensure ◌>>=◌
read_tag-Reads tag rest = rw (◌>>=◌, read_exact-Reads tag rest, bytes_eq_refl tag)

pub repeat-Reads :
    {A : Type 0} (r : Reader A) (f : A → List ℕ) (xs : List A)
    → All (λ x. Reads r (f x) x) xs
    → Reads (repeat r (length xs)) (concat_map f xs) xs
unfolding repeat concat_map ◌>>=◌
repeat-Reads r f [] h rest = refl
repeat-Reads r f (x ∷ xs) h rest =
    rw (append_assoc (f x) (concat_map f xs) rest, ◌>>=◌, h.0 (concat_map f xs ++ rest))
      (rw (◌>>=◌, repeat-Reads r f xs h.1 rest))

-- Whatever a reader gives satisfies `P`.
abbrev pub Ensures : {A : Type 0} → (A → Type 0) → Reader A → Type 0
Ensures {A} P r = (bs rest : List ℕ) (a : A) → r bs ≡ some (a, rest) → P a

pub bind-Ensures :
    {A B : Type 0} (Q : A → Type 0) (P : B → Type 0) (m : Reader A) (f : A → Reader B)
    → Ensures Q m
    → ((a : A) → Q a → Ensures P (f a))
    → Ensures P (m >>= f)
unfolding ◌>>=◌
bind-Ensures Q P m f hm hf bs rest b h = elim (Option-cases (m bs)) [
  | inl e ↦ absurd (let h' = rw (◌>>=◌, e) at h in cc)
  | inr ((a, mid), e) ↦ hf a (hm bs mid a e) mid rest b (rw (◌>>=◌, e) at h)
]

pub after-Ensures :
    {A B : Type 0} (P : B → Type 0) (m : Reader A) (f : A → Reader B)
    → ((a : A) → Ensures P (f a))
    → Ensures P (m >>= f)
after-Ensures P m f hf = bind-Ensures (λ _. Unit) P m f (λ _ _ _ _. tt) (λ a _. hf a)

pub pure-Ensures : {A : Type 0} (P : A → Type 0) (a : A) → P a → Ensures P (pure a)
pure-Ensures P a h bs rest b e = let same : b ≡ a = cc in rw same h

pub read_exact-cases :
    (k : ℕ) (bs taken rest : List ℕ)
    → read_exact k bs ≡ some (taken, rest)
    → (length taken ≡ k) × (taken ++ rest ≡ bs)
unfolding read_exact
read_exact-cases k bs taken rest h = ground (arith, length-take k bs, take-append-drop k bs)
