-- ===== src/Stream/Detection.antt =====
-- The watch finds the end of a stream however the network cuts it into chunks.
use mathlib.Core.List.{flatten, append_assoc, append-nil}
use lario_llms.Prelude.{
  ℕ, zero, suc, ◌+◌, ◌-◌, ◌≡◌, refl, sym, ap, ◌∙◌, inl, inr, Bool, true, false, not, ◌&&◌, List, [],
  ◌∷◌, ◌++◌, arith, ◌==◌, ltb, lt→ltb, Bool-cases, ◌<◌, length, length-append, length-drop, drop,
  drop-append, drop-drop, last, String,
}
use lario_llms.Stream.{
  Watch, has_prefix, contains, done_marker, watch_chunk, watch, is_event_path, admission_clean,
  gateway_clean,
}

-- What is cut off before the last `n` elements may be cut off in two goes.
last-append : (n : ℕ) (xs ys : List ℕ) → last n (last n xs ++ ys) ≡ last n (xs ++ ys)
last-append n xs ys =
    let k = length xs - n in
    let zs = xs ++ ys in
    let len : k + (length (drop k zs) - n) ≡ length zs - n =
      omega (arith, length-drop k zs, length-append xs ys) in
    ap (last n) (sym (drop-append k xs ys (omega arith)))
    ∙ drop-drop (length (drop k zs) - n) k zs
    ∙ ap (λ j. drop j zs) len

has_prefix-append : (m xs ys : List ℕ) → has_prefix m xs ≡ true → has_prefix m (xs ++ ys) ≡ true
unfolding has_prefix
has_prefix-append [] xs ys h = refl
has_prefix-append (a ∷ m) [] ys h = cc
has_prefix-append (a ∷ m) (x ∷ xs) ys h = ground (arith, has_prefix-append m xs ys)

contains-append : (m xs ys : List ℕ) → contains m xs ≡ true → contains m (xs ++ ys) ≡ true
unfolding contains
contains-append m [] [] h = h
contains-append m [] (y ∷ ys) h = ground (arith, has_prefix-append m [] (y ∷ ys))
contains-append m (x ∷ xs) ys h =
    ground (arith, has_prefix-append m (x ∷ xs) ys, contains-append m xs ys)

contains-drop :
    (m : List ℕ) (k : ℕ) (xs : List ℕ) → contains m (drop k xs) ≡ true → contains m xs ≡ true
unfolding contains
contains-drop m zero xs h = h
contains-drop m (suc k) [] h = h
contains-drop m (suc k) (x ∷ xs) h = ground (arith, contains-drop m k xs)

abbrev beginning : Bool → Watch
beginning t = record { tail = []; terminal = t }

and-true_right : (a b : Bool) → (a && b) ≡ true → b ≡ true
and-true_right a b h = ground arith

terminal-watch :
    (n : ℕ) (chunks : List (List ℕ)) (w : Watch)
    → w.terminal ≡ true
    → (watch n chunks w).terminal ≡ true
unfolding watch watch_chunk
terminal-watch n [] w h = h
terminal-watch n (c ∷ cs) w h = terminal-watch n cs (watch_chunk n c w) (ground arith)

found-watch :
    (n : ℕ) (c : List ℕ) (cs : List (List ℕ)) (w : Watch)
    → contains done_marker (last n (w.tail ++ flatten (c ∷ cs))) ≡ true
    → (watch n (c ∷ cs) w).terminal ≡ true
unfolding watch watch_chunk flatten
found-watch n c [] w h = let h' = rw append-nil at h in ground (arith, h')
found-watch n c (d ∷ ds) w h =
    found-watch n d ds (watch_chunk n c w)
      (rw (last-append n (w.tail ++ c) (flatten (d ∷ ds)), append_assoc) h)

sound-watch :
    (n : ℕ) (cs : List (List ℕ)) (w : Watch)
    → w.terminal ≡ false
    → (watch n cs w).terminal ≡ true
    → contains done_marker (w.tail ++ flatten cs) ≡ true
unfolding watch watch_chunk flatten
sound-watch n [] w f h = cc
sound-watch n (c ∷ cs) w f h = elim (Bool-cases (watch_chunk n c w).terminal) [
  | inl seen ↦
      let here =
        contains-drop done_marker (length (w.tail ++ c) - n) (w.tail ++ c)
          (ground (arith, f, seen)) in
      rw append_assoc at (contains-append done_marker (w.tail ++ c) (flatten cs) here)
  | inr unseen ↦
      let k = length (w.tail ++ c) - n in
      let later = sound-watch n cs (watch_chunk n c w) unseen h in
      let whole = rw (sym (drop-append k (w.tail ++ c) (flatten cs) (omega arith))) at later in
      rw append_assoc at (contains-drop done_marker k (w.tail ++ c ++ flatten cs) whole)
]

-- A stream that did not fail ends cleanly if the event lies in its last 64 bytes, however it was cut.
pub admission_clean-of_done :
    (path : String) (streaming : Bool) (status : ℕ) (c : List ℕ) (cs : List (List ℕ))
    → status < 500
    → contains done_marker (last 64 (flatten (c ∷ cs))) ≡ true
    → admission_clean path streaming status (c ∷ cs) ≡ true
unfolding admission_clean
admission_clean-of_done path streaming status c cs h d =
    simp (lt→ltb status 500 h, found-watch 64 c cs (beginning _) d)

-- A successful event stream ends cleanly only if the event was somewhere in it.
pub admission_clean-contains :
    (path : String) (cs : List (List ℕ))
    → is_event_path path ≡ true
    → admission_clean path true 200 cs ≡ true
    → contains done_marker (flatten cs) ≡ true
unfolding admission_clean
admission_clean-contains path cs e h =
    sound-watch 64 cs (beginning (not (is_event_path path && true && 200 == 200))) (ground arith)
      (and-true_right (ltb 200 500) _ h)

-- The same for the gateway's window of 128 bytes.
pub gateway_clean-of_done :
    (path : String) (streaming : Bool) (status : ℕ) (c : List ℕ) (cs : List (List ℕ))
    → status < 500
    → contains done_marker (last 128 (flatten (c ∷ cs))) ≡ true
    → gateway_clean path streaming status (c ∷ cs) ≡ true
unfolding gateway_clean
gateway_clean-of_done path streaming status c cs h d =
    simp (lt→ltb status 500 h, found-watch 128 c cs (beginning _) d)

-- An event stream with any status below 500 ends cleanly only if the event was somewhere in it.
pub gateway_clean-contains :
    (path : String) (status : ℕ) (cs : List (List ℕ))
    → is_event_path path ≡ true
    → gateway_clean path true status cs ≡ true
    → (status < 500) × (contains done_marker (flatten cs) ≡ true)
unfolding gateway_clean
gateway_clean-contains path status cs e h = (
  ground arith,
  sound-watch 128 cs (beginning (not (true && is_event_path path))) (ground arith)
      (and-true_right (ltb status 500) _ h),
)
