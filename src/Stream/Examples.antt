-- ===== src/Stream/Examples.antt =====
-- A stream whose end event is cut in two by the network.
use mathlib.Core.List.{flatten}
use lario_llms.Prelude.{ℕ, ◌≡◌, refl, true, List, [], ◌∷◌, arith, last}
use lario_llms.Stream.{has_prefix, contains, done_marker, admission_clean, gateway_clean}
use lario_llms.Stream.Detection.{admission_clean-of_done}

abbrev first_half : List ℕ
first_half = b'd' ∷ b'a' ∷ b't' ∷ b'a' ∷ b':' ∷ b' ' ∷ b'[' ∷ []

abbrev second_half : List ℕ
second_half = b'D' ∷ b'O' ∷ b'N' ∷ b'E' ∷ b']' ∷ 10 ∷ 10 ∷ []

abbrev chunks : List (List ℕ)
chunks = first_half ∷ second_half ∷ []

done_64 : contains done_marker (last 64 (flatten chunks)) ≡ true
unfolding contains has_prefix flatten
done_64 = refl

done_128 : contains done_marker (last 128 (flatten chunks)) ≡ true
unfolding contains has_prefix flatten
done_128 = refl

admission_clean-of_done_example : admission_clean "/v1/chat/completions" true 200 chunks ≡ true
admission_clean-of_done_example =
    admission_clean-of_done "/v1/chat/completions" true 200 first_half (second_half ∷ [])
      (omega arith) done_64

admission_run : admission_clean "/v1/chat/completions" true 200 chunks ≡ true
unfolding admission_clean
admission_run = refl

gateway_run : gateway_clean "/v1/completions" true 206 chunks ≡ true
unfolding gateway_clean
gateway_run = refl
