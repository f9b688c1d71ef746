-- ===== src/Stream.antt =====
-- The end of a streamed answer, as both servers watch it (shared/admission/server.py and
-- shared/serving/gateway.py, handler): a request ended cleanly if the upstream did not fail and the end
-- event was seen. Bytes are numbers.
pub mod Detection
pub mod Examples
use lario_llms.Prelude.{
  ℕ, String, Bool, true, false, not, ◌&&◌, ◌||◌, List, [], ◌∷◌, ◌++◌, ltb, ◌==◌, str_eq,
  if◌then◌else◌, last, member,
}

pub record Watch : Type 0 where
  pub tail : List ℕ
  pub terminal : Bool

unfoldable pub has_prefix : List ℕ → List ℕ → Bool
has_prefix [] xs = true
has_prefix (m ∷ ms) [] = false
has_prefix (m ∷ ms) (x ∷ xs) = m == x && has_prefix ms xs

-- `marker in xs`
unfoldable pub contains : List ℕ → List ℕ → Bool
contains marker [] = has_prefix marker []
contains marker (x ∷ xs) = has_prefix marker (x ∷ xs) || contains marker xs

abbrev pub done_marker : List ℕ
done_marker = b'd' ∷ b'a' ∷ b't' ∷ b'a' ∷ b':' ∷ b' ' ∷ b'[' ∷ b'D' ∷ b'O' ∷ b'N' ∷ b'E' ∷ b']' ∷ []

-- the body of `async for`: the last `window` bytes are kept, and searched
unfoldable pub watch_chunk : ℕ → List ℕ → Watch → Watch
watch_chunk window chunk w =
    let tail = last window (w.tail ++ chunk) in
    record { tail = tail; terminal = w.terminal || contains done_marker tail }

unfoldable pub watch : ℕ → List (List ℕ) → Watch → Watch
watch window [] w = w
watch window (chunk ∷ chunks) w = watch window chunks (watch_chunk window chunk w)

abbrev pub is_event_path : String → Bool
is_event_path path = member path ("/v1/chat/completions" ∷ "/v1/completions" ∷ [])

-- admission/server.py keeps 64 bytes and expects the event of successful answers only
unfoldable pub admission_clean : String → Bool → ℕ → List (List ℕ) → Bool
unfolding watch watch_chunk contains has_prefix
admission_clean path streaming status chunks =
    let w =
      watch 64 chunks
        (record { tail = []; terminal = not (is_event_path path && streaming && status == 200) }) in
    ltb status 500 && w.terminal

-- serving/gateway.py keeps 128 bytes, and expects the event whatever the status
unfoldable pub gateway_clean : String → Bool → ℕ → List (List ℕ) → Bool
unfolding watch watch_chunk contains has_prefix
gateway_clean path streaming status chunks =
    let w =
      watch 128 chunks (record { tail = []; terminal = not (streaming && is_event_path path) }) in
    ltb status 500 && w.terminal
