-- ===== src/Serial/Tests.antt =====
-- Printing on a UART whose transmitter is busy at every other read of its status.
use sunxi_babelfish.Common.{
  ◌≡◌, ◌%◌, refl, true, [], ◌∷◌, inl, inr, if◌then◌else◌, ◌==◌, length, arith, Bool-cases,
}
use sunxi_babelfish.Bus.{Trace, Device, read}
use sunxi_babelfish.Console.{Log, str, hex}
use sunxi_babelfish.Serial.{lsr, print_log}
use sunxi_babelfish.Serial.Output.{ReadyWithin, Sends, render, print_log-Sends, hex_text}
use sunxi_babelfish.Serial.Hex.{hex_value, hex_value-hex_text}

-- Ready when the number of accesses so far is even.
abbrev uart : Device
uart t a = if length t % 2 == 0 then 32 else 0

uart-ReadyWithin : (t : Trace) → ReadyWithin 2 uart t
uart-ReadyWithin t = elim (Bool-cases (length t % 2 == 0)) [
  | inl e ↦ inl (rw e refl)
  | inr e ↦
      let next : (length (read lsr (uart t lsr) ∷ t) % 2 == 0) ≡ true = ground arith in
      inr (inl (rw next refl))
]

abbrev greeting : Log
greeting = str "Hi\n" ∷ hex 0x1623 ∷ []

print_log-Sends_example : Sends (render greeting) [] (print_log 2 uart greeting [])
print_log-Sends_example = print_log-Sends 2 uart uart-ReadyWithin greeting [] tt

hex_value-hex_text_example : (length (hex_text 0xc07) ≡ 8) × (hex_value 0 (hex_text 0xc07) ≡ 0xc07)
hex_value-hex_text_example = hex_value-hex_text 0xc07 (omega arith)
