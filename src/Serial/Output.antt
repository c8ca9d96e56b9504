-- ===== src/Serial/Output.antt =====
-- What the UART receives from the printing routines, and that it is never written while it is
-- busy.
use mathlib.Core.List.{append_assoc, append-nil}
use sunxi_babelfish.Common.{
  ℕ, zero, suc, ◌≡◌, ◌∙◌, ap, sym, refl, true, List, [], ◌∷◌, ◌++◌, ◌⊎◌, ◌>>=◌, Option, some, ◌==◌,
  if◌then◌else◌, arith, Bool-cases, inl, inr,
}
use sunxi_babelfish.Bus.{read, write, Trace, Device, writel}
use sunxi_babelfish.Console.{str, text, hex, Log, codes}
use sunxi_babelfish.Serial.{
  thr, lsr, is_thre, poll, raw_putch, putch, putstr, hex_digit, printhex_loop, printhex, print_log,
}

-- The bytes that were written to the transmit register, in order.
unfoldable pub sent : Trace → List ℕ
sent [] = []
sent (read a v ∷ t) = sent t
sent (write a v ∷ t) = if a == thr then sent t ++ v ∷ [] else sent t

-- The last access read the status register and found the transmitter empty.
abbrev pub IsReady : Trace → Type 0
IsReady [] = ⊥
IsReady (read a v ∷ t) = (a ≡ lsr) × (is_thre v ≡ true)
IsReady (write a v ∷ t) = ⊥

-- Every write to the transmit register came directly after such a read.
abbrev pub IsPaced : Trace → Type 0
IsPaced [] = Unit {0}
IsPaced (read a v ∷ t) = IsPaced t
IsPaced (write a v ∷ t) = (a ≡ thr → IsReady t) × IsPaced t

-- One of the next `n` reads of the status register finds the transmitter empty.
abbrev pub ReadyWithin : ℕ → Device → Trace → Type 0
ReadyWithin zero dev t = ⊥
ReadyWithin (suc n) dev t =
    (is_thre (dev t lsr) ≡ true) ⊎ ReadyWithin n dev (read lsr (dev t lsr) ∷ t)

-- What a routine that is meant to send `out` comes to.
pub record Sends (out : List ℕ) (t : Trace) (r : Option Trace) : Type 0 where
  pub t' : Trace
  pub run : r ≡ some t'
  pub sent_eq : sent t' ≡ sent t ++ out
  pub paced : IsPaced t'

-- What a newline becomes on the line.
abbrev pub expand : ℕ → List ℕ
expand c = if c == b'\n' then c ∷ b'\r' ∷ [] else c ∷ []

unfoldable pub expand_text : List ℕ → List ℕ
expand_text [] = []
expand_text (c ∷ s) = expand c ++ expand_text s

abbrev pub hex_digits : (k u i : ℕ) → List ℕ
hex_digits zero u i = []
hex_digits (suc k) u i = hex_digit u i ∷ hex_digits k u (suc i)

-- The eight digits that `printhex` prints.
abbrev pub hex_text : ℕ → List ℕ
hex_text u = hex_digits 8 u 0

-- The bytes that a log comes to.
unfoldable pub render : Log → List ℕ
render [] = []
render (str s ∷ log) = expand_text (codes s) ++ render log
render (text s ∷ log) = expand_text s ++ render log
render (hex u ∷ log) = hex_text u ++ render log

poll-IsReady :
    (fuel : ℕ) (dev : Device) (t : Trace)
    → ReadyWithin fuel dev t
    → IsPaced t
    → (t' : Trace) × (poll fuel dev t ≡ some t') × (sent t' ≡ sent t) × IsPaced t' × IsReady t'
unfolding poll sent
poll-IsReady zero dev t r p = absurd r
poll-IsReady (suc f) dev t r p = elim (Bool-cases (is_thre (dev t lsr))) [
  | inl up ↦ (read lsr (dev t lsr) ∷ t, ground arith, refl, p, (refl, up))
  | inr busy ↦ elim r [
    | inl up ↦ cc
    | inr later ↦
        let (t', run, same, paced, ready) = poll-IsReady f dev (read lsr (dev t lsr) ∷ t) later p in
        (t', rw (busy, poll) run, same, paced, ready)
  ]
]

module _ (fuel : ℕ) (dev : Device) (ready : (t : Trace) → ReadyWithin fuel dev t) where
  raw_putch-Sends : (c : ℕ) (t : Trace) → IsPaced t → Sends (c ∷ []) t (raw_putch fuel dev c t)
  unfolding raw_putch sent writel
  raw_putch-Sends c t p =
      let (t1, run1, same1, paced1, up1) = poll-IsReady fuel dev t (ready t) p in
      let t2 = write thr c ∷ t1 in
      let (t3, run3, same3, paced3, up3) =
        poll-IsReady fuel dev t2 (ready t2) ((λ e. up1), paced1) in
      record {
        t' = t3;
        run = rw (run1, raw_putch) run3;
        sent_eq = same3 ∙ ap (λ (l : List ℕ). l ++ c ∷ []) same1;
        paced = paced3;
      }

  -- Two routines in a row.
  then_Sends :
      (a b : List ℕ) (t : Trace) (r : Option Trace) (k : Trace → Option Trace)
      → Sends a t r
      → ((t1 : Trace) → IsPaced t1 → Sends b t1 (k t1))
      → Sends (a ++ b) t (r >>= k)
  then_Sends a b t r k x next =
      let y = next x.t' x.paced in
      record {
        t' = y.t';
        run = rw x.run y.run;
        sent_eq = y.sent_eq ∙ rw x.sent_eq (append_assoc (sent t) a b);
        paced = y.paced;
      }

  stop_Sends : (t : Trace) → IsPaced t → Sends [] t (some t)
  stop_Sends t p = record { t' = t; run = refl; sent_eq = sym (append-nil (sent t)); paced = p }

  putch-Sends : (c : ℕ) (t : Trace) → IsPaced t → Sends (expand c) t (putch fuel dev c t)
  unfolding putch
  putch-Sends c t p = elim (Bool-cases (c == b'\n')) [
    | inl newline ↦ rw newline (
        then_Sends (c ∷ []) (b'\r' ∷ []) t (raw_putch fuel dev c t) (raw_putch fuel dev b'\r')
          (raw_putch-Sends c t p) (raw_putch-Sends b'\r'))
    | inr plain ↦
        rw plain (
          then_Sends (c ∷ []) [] t (raw_putch fuel dev c t) some (raw_putch-Sends c t p) stop_Sends)
  ]

  putstr-Sends :
      (s : List ℕ) (t : Trace) → IsPaced t → Sends (expand_text s) t (putstr fuel dev s t)
  unfolding putstr expand_text
  putstr-Sends [] t p = stop_Sends t p
  putstr-Sends (c ∷ s) t p =
      then_Sends (expand c) (expand_text s) t (putch fuel dev c t) (putstr fuel dev s)
        (putch-Sends c t p) (putstr-Sends s)

  printhex_loop-Sends :
      (k u i : ℕ) (t : Trace)
      → IsPaced t
      → Sends (hex_digits k u i) t (printhex_loop fuel dev k u i t)
  unfolding printhex_loop
  printhex_loop-Sends zero u i t p = stop_Sends t p
  printhex_loop-Sends (suc k) u i t p =
      then_Sends (hex_digit u i ∷ []) (hex_digits k u (suc i)) t
        (raw_putch fuel dev (hex_digit u i) t) (printhex_loop fuel dev k u (suc i))
        (raw_putch-Sends (hex_digit u i) t p) (printhex_loop-Sends k u (suc i))

  -- On a UART that gets ready within `fuel` reads of its status, every log is printed to the end:
  -- the bytes arrive in order, a newline as "\n\r" and a number as eight digits, and no byte is
  -- written before the transmitter has reported that it is empty.
  pub print_log-Sends :
      (log : Log) (t : Trace) → IsPaced t → Sends (render log) t (print_log fuel dev log t)
  unfolding print_log render printhex
  print_log-Sends [] t p = stop_Sends t p
  print_log-Sends (str s ∷ log) t p =
      then_Sends (expand_text (codes s)) (render log) t (putstr fuel dev (codes s) t)
        (print_log fuel dev log) (putstr-Sends (codes s) t p) (print_log-Sends log)
  print_log-Sends (text s ∷ log) t p =
      then_Sends (expand_text s) (render log) t (putstr fuel dev s t) (print_log fuel dev log)
        (putstr-Sends s t p) (print_log-Sends log)
  print_log-Sends (hex u ∷ log) t p =
      then_Sends (hex_text u) (render log) t (printhex fuel dev u t) (print_log fuel dev log)
        (printhex_loop-Sends 8 u 0 t p) (print_log-Sends log)
