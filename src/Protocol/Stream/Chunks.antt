-- ===== src/Protocol/Stream/Chunks.antt =====
-- crates/bridge/bridge-protocol/src/lib.rs: `StreamDecoder::push` on a stream in two parts.
use steam_controller_bridge.Common.{
  ℕ, zero, suc, ◌+◌, ◌-◌, ◌≤◌, ◌<◌, ◌≡◌, refl, sym, ap, ◌∙◌, arith, List, [], ◌∷◌, ◌++◌, length,
  drop, drop-append, take-append, get_or-append, append_assoc, length-append, Option, none, some,
  inl, inr, Option-cases, Bool-cases, ◌&&◌, ◌==◌, Bool, false,
}
use mathlib.Core.Option
use steam_controller_bridge.Protocol.Message.{magic_0, magic_1}
use steam_controller_bridge.Protocol.Parse.{u16_at}
use steam_controller_bridge.Protocol.Stream.{
  FrameResult, magic_position, keep_last, Round, stop, emit, frame_round, round, decode_loop, push,
}
use steam_controller_bridge.Protocol.Stream.Progress.{
  round_no_magic, round_magic, decode_loop_stop, decode_loop_emit, with_first, round_emit-lt,
}

-- What a found magic pair says of the buffer, and that bytes behind it do not move it.
position_fits : (b : List ℕ) (i : ℕ) → magic_position b ≡ some i → i + 2 ≤ length b
unfolding magic_position
position_fits [] i e = cc
position_fits (x ∷ []) i e = cc
position_fits (x ∷ y ∷ rest) i e = ground (arith, position_fits (y ∷ rest) (i - 1))

position-append :
    (b c : List ℕ) (i : ℕ) → magic_position b ≡ some i → magic_position (b ++ c) ≡ some i
unfolding magic_position
position-append [] c i e = cc
position-append (x ∷ []) c i e = cc
position-append (x ∷ y ∷ rest) c i e = ground (arith, position-append (y ∷ rest) c (i - 1))

position-drop :
    (b c : List ℕ) (i : ℕ) → magic_position b ≡ some i → magic_position (drop i b ++ c) ≡ some 0
unfolding magic_position
position-drop [] c i e = cc
position-drop (x ∷ []) c i e = cc
position-drop (x ∷ y ∷ rest) c zero e = ground (arith)
position-drop (x ∷ y ∷ rest) c (suc i) e = ground (arith, position-drop (y ∷ rest) c i)

frame_round_emit-append :
    (d c : List ℕ) {r : FrameResult} {d' : List ℕ}
    → frame_round d ≡ emit r d'
    → frame_round (d ++ c) ≡ emit r (d' ++ c)
unfolding frame_round
frame_round_emit-append d c e = ground (
  arith,
  length-append d c,
  get_or-append d c 4 0,
  get_or-append d c 5 0,
  take-append (10 + u16_at d 4) d c,
  take-append (8 + u16_at d 4 + 2) d c,
  drop-append 1 d c,
  drop-append (8 + u16_at d 4 + 2) d c,
)

frame_round_stop : (d : List ℕ) {d' : List ℕ} → frame_round d ≡ stop d' → d' ≡ d
unfolding frame_round
frame_round_stop d e = ground arith

-- A round that goes on does the same with more bytes behind it.
pub round_emit-append :
    (b c : List ℕ) {r : FrameResult} {b' : List ℕ}
    → round b ≡ emit r b'
    → round (b ++ c) ≡ emit r (b' ++ c)
round_emit-append b c {r} {b'} e = elim (Option-cases (magic_position b)) [
  | inl p ↦ cc (round_no_magic b p, e)
  | inr (i, p) ↦
      round_magic (b ++ c) (position-append b c i p)
      ∙ rw (drop-append i b c (omega (arith, position_fits b i p)))
          (frame_round_emit-append (drop i b) c (sym (round_magic b p) ∙ e))
]

-- A byte that begins no magic pair does not count.
abbrev begins_magic : ℕ → List ℕ → Bool
begins_magic x [] = x == magic_0
begins_magic x (y ∷ rest) = x == magic_0 && y == magic_1

position_cons :
    (x y : ℕ) (rest : List ℕ)
    → begins_magic x (y ∷ rest) ≡ false
    → magic_position (x ∷ y ∷ rest) ≡ Option.map suc (magic_position (y ∷ rest))
unfolding magic_position
position_cons x y rest e = rw e

round_cons : (x : ℕ) (b : List ℕ) → begins_magic x b ≡ false → round (x ∷ b) ≡ round b
round_cons x [] e = unfold round magic_position keep_last in rw e
round_cons x (y ∷ rest) e = elim (Option-cases (magic_position (y ∷ rest))) [
  | inl p ↦
      round_no_magic (x ∷ y ∷ rest) (position_cons x y rest e ∙ ap (Option.map suc) p)
      ∙ (unfold keep_last in sym (round_no_magic (y ∷ rest) p))
  | inr (i, p) ↦
      round_magic (x ∷ y ∷ rest) (position_cons x y rest e ∙ ap (Option.map suc) p)
      ∙ sym (round_magic (y ∷ rest) p)
]

no_magic_here :
    (x y : ℕ) (rest : List ℕ)
    → magic_position (x ∷ y ∷ rest) ≡ none
    → (begins_magic x (y ∷ rest) ≡ false) × (magic_position (y ∷ rest) ≡ none)
unfolding magic_position
no_magic_here x y rest e = (
  ground (arith, Option-cases (magic_position (y ∷ rest))),
  ground (arith, Option-cases (magic_position (y ∷ rest))),
)

other-begins_magic : (x : ℕ) (b : List ℕ) → (x == magic_0) ≡ false → begins_magic x b ≡ false
other-begins_magic x [] e = e
other-begins_magic x (y ∷ rest) e = rw e

round-keep_last-append :
    (b c : List ℕ) → magic_position b ≡ none → round (b ++ c) ≡ round (keep_last b ++ c)
unfolding keep_last
round-keep_last-append [] c e = refl
round-keep_last-append (x ∷ []) c e = elim (Bool-cases (x == magic_0)) [
  | inl p ↦ rw (p, keep_last)
  | inr p ↦ rw (p, keep_last) (round_cons x c (other-begins_magic x c p))
]
round-keep_last-append (x ∷ y ∷ rest) c e =
    let (here, later) = no_magic_here x y rest e in
    round_cons x (y ∷ rest ++ c) here ∙ round-keep_last-append (y ∷ rest) c later

-- What a round keeps stands for the whole buffer when more bytes arrive.
pub round_stop-append :
    (b c : List ℕ) {b' : List ℕ} → round b ≡ stop b' → round (b ++ c) ≡ round (b' ++ c)
round_stop-append b c {b'} e = elim (Option-cases (magic_position b)) [
  | inl p ↦
      let kept : keep_last b ≡ b' = cc (round_no_magic b p, e) in
      round-keep_last-append b c p ∙ rw kept
  | inr (i, p) ↦
      let kept : b' ≡ drop i b = frame_round_stop (drop i b) (sym (round_magic b p) ∙ e) in
      round_magic (b ++ c) (position-append b c i p)
      ∙ rw (drop-append i b c (omega (arith, position_fits b i p)), kept)
          (sym (round_magic (drop i b ++ c) (position-drop b c i p)))
]

-- Any two amounts of fuel above the buffer's length give one result.
pub decode_loop-enough :
    (m n : ℕ) (b : List ℕ) → length b < m → length b < n → decode_loop m b ≡ decode_loop n b
decode_loop-enough zero n b p q = absurd (omega arith)
decode_loop-enough (suc m) zero b p q = absurd (omega arith)
decode_loop-enough (suc m) (suc n) b p q = by_round (round b) refl (decode_loop-enough m n)
  where
    by_round :
        (r : Round)
        → round b ≡ r
        → ((b' : List ℕ) → length b' < m → length b' < n → decode_loop m b' ≡ decode_loop n b')
        → decode_loop (suc m) b ≡ decode_loop (suc n) b
    by_round (stop b') e ih = decode_loop_stop m b e ∙ sym (decode_loop_stop n b e)
    by_round (emit r b') e ih =
        decode_loop_emit m b e
        ∙ ap (with_first r)
            (ih b' (omega (arith, round_emit-lt b b' e)) (omega (arith, round_emit-lt b b' e)))
        ∙ sym (decode_loop_emit n b e)

-- The results of a later call behind those of an earlier one.
abbrev pub with_before :
    List FrameResult → Option (List FrameResult × List ℕ) → Option (List FrameResult × List ℕ)
with_before before = Option.map (λ (output, left). (before ++ output, left))

with_before-nil : (o : Option (List FrameResult × List ℕ)) → with_before [] o ≡ o
with_before-nil none = refl
with_before-nil (some (output, left)) = refl

with_first-with_before :
    (r : FrameResult) (before : List FrameResult) (o : Option (List FrameResult × List ℕ))
    → with_first r (with_before before o) ≡ with_before (r ∷ before) o
with_first-with_before r before none = refl
with_first-with_before r before (some (output, left)) = refl

with_first-some :
    (r : FrameResult) (o : Option (List FrameResult × List ℕ)) {output : List FrameResult}
    {left : List ℕ}
    → with_first r o ≡ some (output, left)
    → (later : List FrameResult) × (o ≡ some (later, left)) × (output ≡ r ∷ later)
with_first-some r none e = cc
with_first-some r (some (later, left')) e = (later, cc, cc)

same_round :
    (n : ℕ) (b c : List ℕ) → round b ≡ round c → decode_loop (suc n) b ≡ decode_loop (suc n) c
unfolding decode_loop
same_round n b c e = rw (e, decode_loop)

abbrev resume : ℕ → List ℕ → Option (List FrameResult × List ℕ) → Option (List FrameResult × List ℕ)
resume fuel c none = none
resume fuel c (some (output, left)) = with_before output (decode_loop fuel (left ++ c))

-- The fuel is given by its bound: `n` for the first read, any two larger ones for the rest.
decode_loop-append :
    (n : ℕ) (b c : List ℕ) (output : List FrameResult) (left : List ℕ) (m k : ℕ)
    → length b < n
    → length (b ++ c) < m
    → length (b ++ c) < k
    → decode_loop n b ≡ some (output, left)
    → decode_loop m (b ++ c) ≡ with_before output (decode_loop k (left ++ c))
decode_loop-append zero b c output left m k p q s e = absurd (omega arith)
decode_loop-append (suc n) b c output left zero k p q s e = absurd (omega arith)
decode_loop-append (suc n) b c output left (suc m) zero p q s e = absurd (omega arith)
decode_loop-append (suc n) b c output left (suc m) (suc k) p q s e =
    by_round (round b) refl (decode_loop-append n)
  where
    by_round :
        (r : Round)
        → round b ≡ r
        → ((b c : List ℕ) (output : List FrameResult) (left : List ℕ) (m k : ℕ)
            → length b < n
            → length (b ++ c) < m
            → length (b ++ c) < k
            → decode_loop n b ≡ some (output, left)
            → decode_loop m (b ++ c) ≡ with_before output (decode_loop k (left ++ c)))
        → decode_loop (suc m) (b ++ c) ≡ with_before output (decode_loop (suc k) (left ++ c))
    by_round (stop b') r ih =
        let ended : some (output, left) ≡ some ([], b') = sym e ∙ decode_loop_stop n b r in
        decode_loop-enough (suc m) (suc k) (b ++ c) q s
        ∙ same_round k (b ++ c) (b' ++ c) (round_stop-append b c r)
        ∙ sym (with_before-nil _)
        ∙ ap (resume (suc k) c) (sym ended)
    by_round (emit x b') r ih =
        let (later, d, o) = with_first-some x _ (sym (decode_loop_emit n b r) ∙ e) in
        decode_loop_emit m (b ++ c) (round_emit-append b c r)
        ∙ ap (with_first x) (
            ih b' c later left m (suc k) (omega (arith, round_emit-lt b b' r))
              (omega (arith, length-append b c, length-append b' c, round_emit-lt b b' r))
              (omega (arith, length-append b c, length-append b' c, round_emit-lt b b' r)) d)
        ∙ with_first-with_before x later _
        ∙ ap (λ (t : List FrameResult). with_before t (decode_loop (suc k) (left ++ c))) (sym o)

-- If reading a first part gives some results and a buffer, then reading both parts at once gives
-- these results, then those of the second part read from that buffer, and the same buffer at the
-- end.
pub push-append :
    (buffer first second : List ℕ) {output : List FrameResult} {left : List ℕ}
    → push buffer first ≡ some (output, left)
    → push buffer (first ++ second) ≡ with_before output (push left second)
unfolding push
push-append buffer first second {output} {left} e =
    let b = buffer ++ first in
    let k = suc (length (b ++ second) + length (left ++ second)) in
    ap (λ (t : List ℕ). decode_loop (suc (length t)) t) (sym (append_assoc buffer first second))
    ∙ decode_loop-append (suc (length b)) b second output left (suc (length (b ++ second))) k
        (omega arith) (omega arith) (omega arith) e
    ∙ ap (with_before output) (decode_loop-enough k _ (left ++ second) (omega arith) (omega arith))
