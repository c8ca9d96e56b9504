-- ===== src/Setup/Layout.antt =====
-- How the integer types of include/asm/types.h and the structures made of them lie in memory: each
-- member at the next multiple of its size, its bytes from the lowest, and the whole structure
-- filled up to a multiple of its largest member.
use sunxi_babelfish.Common.{
  ℕ, suc, ◌+◌, ◌-◌, ◌*◌, ◌/◌, ◌%◌, ◌^◌, ◌<◌, ◌≤◌, ◌≡◌, refl, ap, List, [], ◌∷◌, ◌++◌, arith, length,
  replicate, length-append, length-replicate, get_or, ◌∙◌,
}
use mathlib.Core.Path.{subst}
use Prim.Native.Nat.{max}
use sunxi_babelfish.Memory.{Memory, Holds}
use sunxi_babelfish.ScriptBin.Image.{word}

pub data Width : Type 0 where
  u8 : Width
  u16 : Width
  u32 : Width

abbrev pub size_of : Width → ℕ
size_of u8 = 1
size_of u16 = 2
size_of u32 = 4

-- The values that a variable of the type has.
abbrev pub Fits : Width → ℕ → Type 0
Fits u8 v = v < 2 ^ 8
Fits u16 v = v < 2 ^ 16
Fits u32 v = v < 2 ^ 32

abbrev pub bytes_of : Width → ℕ → List ℕ
bytes_of u8 v = v ∷ []
bytes_of u16 v = v % 2 ^ 8 ∷ v / 2 ^ 8 ∷ []
bytes_of u32 v = v % 2 ^ 8 ∷ v / 2 ^ 8 % 2 ^ 8 ∷ v / 2 ^ 16 % 2 ^ 8 ∷ v / 2 ^ 24 ∷ []

unfoldable pub value_at : Width → Memory → ℕ → ℕ
value_at u8 m a = m a
value_at u16 m a = m a + m (a + 1) * 2 ^ 8
value_at u32 m a = word m a

-- The offset of a member of the type that comes after `o` bytes.
abbrev pub align : Width → ℕ → ℕ
align u8 o = o
align u16 o = (o + 1) / 2 * 2
align u32 o = (o + 3) / 4 * 4

-- The bytes that fill the structure up to that offset.
abbrev pub gap : Width → ℕ → List ℕ
gap w o = replicate (align w o - o) 0

-- The members of a structure, of which `o` bytes are laid out.
abbrev pub members_from : (o : ℕ) → List (Width × ℕ) → List ℕ
members_from o [] = []
members_from o ((w, v) ∷ fs) = gap w o ++ (bytes_of w v ++ members_from (align w o + size_of w) fs)

-- Where the last member ends.
abbrev pub end_of : (o : ℕ) → List Width → ℕ
end_of o [] = o
end_of o (w ∷ ws) = end_of (align w o + size_of w) ws

abbrev pub largest : List Width → ℕ
largest [] = 1
largest (w ∷ ws) = max (size_of w) (largest ws)

-- The size of a structure.
abbrev pub sizeof : List Width → ℕ
sizeof ws = (end_of 0 ws + (largest ws - 1)) / largest ws * largest ws

-- What a program reads that takes the structure at `a` for one with members of these types.
unfoldable pub values_from : (o : ℕ) → List Width → Memory → ℕ → List ℕ
values_from o [] m a = []
values_from o (w ∷ ws) m a =
    value_at w m (a + align w o) ∷ values_from (align w o + size_of w) ws m a

abbrev pub widths : List (Width × ℕ) → List Width
widths [] = []
widths ((w, v) ∷ fs) = w ∷ widths fs

abbrev pub values : List (Width × ℕ) → List ℕ
values [] = []
values ((w, v) ∷ fs) = v ∷ values fs

abbrev pub AllFit : List (Width × ℕ) → Type 0
AllFit [] = Unit {0}
AllFit ((w, v) ∷ fs) = Fits w v × AllFit fs

pub le-align : (w : Width) (o : ℕ) → o ≤ align w o
le-align u8 o = omega arith
le-align u16 o = omega arith
le-align u32 o = omega arith

pub length-gap : (w : Width) (o : ℕ) → o + length (gap w o) ≡ align w o
length-gap w o = omega (arith, le-align w o, length-replicate {A = ℕ} (align w o - o) 0)

pub length-bytes_of : (w : Width) (v : ℕ) → length (bytes_of w v) ≡ size_of w
length-bytes_of u8 v = refl
length-bytes_of u16 v = refl
length-bytes_of u32 v = refl

pub length-members_from :
    (o : ℕ) (fs : List (Width × ℕ)) → o + length (members_from o fs) ≡ end_of o (widths fs)
length-members_from o [] = omega arith
length-members_from o ((w, v) ∷ fs) =
    let rest = members_from (align w o + size_of w) fs in
    omega (
      arith,
      length-append (gap w o) (bytes_of w v ++ rest),
      length-append (bytes_of w v) rest,
      length-gap w o,
      length-bytes_of w v,
      length-members_from (align w o + size_of w) fs,
    )

pub Holds-at : (m : Memory) {a b : ℕ} (xs : List ℕ) → a ≡ b → Holds m a xs → Holds m b xs
Holds-at m xs e h = subst (λ (c : ℕ). Holds m c xs) e h

pub Holds-get_or :
    (m : Memory) (a : ℕ) (xs : List ℕ) → ((i : ℕ) → m (a + i) ≡ get_or xs i 0) → Holds m a xs
Holds-get_or m a [] h = tt
Holds-get_or m a (x ∷ xs) h =
    (ap m (omega arith) ∙ h 0, Holds-get_or m (suc a) xs (λ i. ap m (omega arith) ∙ h (suc i)))

-- The bytes of a list, and those behind it.
pub Holds-append :
    (m : Memory) (a : ℕ) (xs ys : List ℕ)
    → Holds m a (xs ++ ys)
    → Holds m a xs × Holds m (a + length xs) ys
Holds-append m a [] ys h = (tt, Holds-at m ys (omega arith) h)
Holds-append m a (x ∷ xs) ys (e, h) =
    let r = Holds-append m (suc a) xs ys h in ((e, r.0), Holds-at m ys (omega arith) r.1)

pub value_at-bytes_of :
    (w : Width) (m : Memory) (a v : ℕ) → Fits w v → Holds m a (bytes_of w v) → value_at w m a ≡ v
unfolding value_at word
value_at-bytes_of u8 m a v f h = h.0
value_at-bytes_of u16 m a v f (h0, (h1, _)) = grind arith
value_at-bytes_of u32 m a v f (h0, (h1, (h2, (h3, _)))) = grind arith

pub values_from-members_from :
    (m : Memory) (a o : ℕ) (fs : List (Width × ℕ))
    → AllFit fs
    → Holds m (a + o) (members_from o fs)
    → values_from o (widths fs) m a ≡ values fs
unfolding values_from
values_from-members_from m a o [] f h = refl
values_from-members_from m a o ((w, v) ∷ fs) (f, r) h =
    let rest = members_from (align w o + size_of w) fs in
    let behind = (Holds-append m (a + o) (gap w o) (bytes_of w v ++ rest) h).1 in
    let split =
      Holds-append m (a + align w o) (bytes_of w v) rest
        (Holds-at m (bytes_of w v ++ rest) (omega (arith, length-gap w o)) behind) in
    let next =
      values_from-members_from m a (align w o + size_of w) fs r
        (Holds-at m rest (omega (arith, length-bytes_of w v)) split.1) in
    rw (value_at-bytes_of w m (a + align w o) v f split.0, next) refl
