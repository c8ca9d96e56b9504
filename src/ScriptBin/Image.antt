-- ===== src/ScriptBin/Image.antt =====
-- Reading the image: words, texts, and the fields of the structures of script_bin.h.
use sunxi_babelfish.Common.{
  ℕ, zero, suc, ◌+◌, ◌*◌, ◌%◌, ◌/◌, ◌^◌, ◌<◌, ◌≡◌, refl, ap, arith, List, [], ◌∷◌, Option, some,
  none, ◌>>=◌, pure, ◌==◌, if◌then◌else◌, length, take,
}
use sunxi_babelfish.Memory.{Memory, IsString}

-- The 32-bit word at `a`.
unfoldable pub word : Memory → ℕ → ℕ
word m a = m a + m (a + 1) * 2 ^ 8 + m (a + 2) * 2 ^ 16 + m (a + 3) * 2 ^ 24

-- The text at `a`, up to its terminator.
unfoldable pub read_text : (fuel : ℕ) → Memory → ℕ → Option (List ℕ)
read_text zero m a = none
read_text (suc f) m a =
    let rest = read_text f m (suc a) in
    if m a == 0 then some [] else (do cs ← rest; pure (m a ∷ cs))

pub read_text_lem :
    (f : ℕ) (m : Memory) (a : ℕ) (xs : List ℕ)
    → IsString m a xs
    → length xs < f
    → read_text f m a ≡ some xs
unfolding read_text
read_text_lem zero m a xs h p = absurd (omega arith)
read_text_lem (suc f) m a [] h p = ground arith
read_text_lem (suc f) m a (x ∷ xs) h p = ground (arith, read_text_lem f m (suc a) xs h.2)

unfoldable pub read_bytes : ℕ → Memory → ℕ → List ℕ
read_bytes zero m a = []
read_bytes (suc k) m a = m a ∷ read_bytes k m (suc a)

pub take-read_bytes : (k : ℕ) (m : Memory) (a : ℕ) → take k (read_bytes k m a) ≡ read_bytes k m a
unfolding read_bytes
take-read_bytes zero m a = refl
take-read_bytes (suc k) m a = ap (λ r. m a ∷ r) (take-read_bytes k m (suc a))

-- `for (p=v, pe=v+bytes; *p && p!=pe; p++);`: how far `p` has come, with `k` bytes to `pe`.
unfoldable pub seek : ℕ → Memory → ℕ → ℕ
seek zero m p = 0
seek (suc k) m p = if m p == 0 then 0 else suc (seek k m (suc p))

pub seek-le : (k : ℕ) (m : Memory) (p : ℕ) → seek k m p < suc k
unfolding seek
seek-le zero m p = omega arith
seek-le (suc k) m p = ground (arith, seek-le k m (suc p))

-- `PTR(bin, offset << 2)`.
abbrev pub ptr : (bin offset : ℕ) → ℕ
ptr bin offset = (bin + offset * 4) % 2 ^ 32

-- `struct script_bin_section` and `struct script_bin_entry`: 32 bytes of name and two words.
abbrev pub section_stride : ℕ
section_stride = 40

abbrev pub entry_stride : ℕ
entry_stride = 40

-- `struct script_bin_head`: the count of sections and three words of version.
abbrev pub head_size : ℕ
head_size = 16

abbrev pub section_length : Memory → ℕ → ℕ
section_length m section = word m (section + 32)

abbrev pub section_offset : Memory → ℕ → ℕ
section_offset m section = word m (section + 36)

abbrev pub entry_offset : Memory → ℕ → ℕ
entry_offset m entry = word m (entry + 32)

-- `(entry->pattern >> 16) & 0xffff` and `entry->pattern & 0xffff`.
abbrev pub entry_kind : Memory → ℕ → ℕ
entry_kind m entry = word m (entry + 36) / 2 ^ 16 % 2 ^ 16

abbrev pub entry_words : Memory → ℕ → ℕ
entry_words m entry = word m (entry + 36) % 2 ^ 16
