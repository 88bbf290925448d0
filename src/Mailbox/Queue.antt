-- ===== src/Mailbox/Queue.antt =====
-- crates/bridge/bridge-runtime/src/desktop/mailbox.rs: counts of a queue, and its back.
use steam_controller_bridge.Common.{
  ℕ, suc, ◌+◌, ◌≡◌, refl, ap, sym, ◌∙◌, Bool, true, false, not, if◌then◌else◌, if-cases, arith, [],
  ◌∷◌, ◌++◌, Option, none, some,
}
use steam_controller_bridge.Mailbox.State.{
  DesktopWorkerSnapshot, snapshot_message, overflow, replace_profile, Message,
  is_snapshot_or_overflow, is_replace_profile,
}
use steam_controller_bridge.Mailbox.Step.{Queue, retain_controls, replace_back, pop_replace_profile}

module _ (Profile Ack : Type 0) where
  unfoldable pub count : (Message Profile Ack → Bool) → Queue Profile Ack → ℕ
  count p [] = 0
  count p (m ∷ ms) = let rest = count p ms in if p m then suc rest else rest

  abbrev pub is_snapshot : Message Profile Ack → Bool
  is_snapshot (snapshot_message s) = true
  is_snapshot _ = false

  abbrev pub is_overflow : Message Profile Ack → Bool
  is_overflow overflow = true
  is_overflow _ = false

  abbrev pub is_control : Message Profile Ack → Bool
  is_control m = not (is_snapshot_or_overflow Profile Ack m)

  pub count-append :
      (p : Message Profile Ack → Bool) (ms : Queue Profile Ack) (m : Message Profile Ack)
      → count p (ms ++ (m ∷ [])) ≡ count p ms + (if p m then 1 else 0)
  unfolding count
  count-append p [] m = ground arith
  count-append p (m' ∷ ms) m = ground (arith, count-append p ms m)

  pub count-retain_controls :
      (ms : Queue Profile Ack)
      → (count is_snapshot (retain_controls Profile Ack ms) ≡ 0)
        × (count is_overflow (retain_controls Profile Ack ms) ≡ 0)
        × (count is_control (retain_controls Profile Ack ms) ≡ count is_control ms)
  unfolding count retain_controls is_snapshot_or_overflow
  count-retain_controls [] = (refl, refl, refl)
  count-retain_controls (snapshot_message s ∷ ms) = count-retain_controls ms
  count-retain_controls (overflow ∷ ms) = count-retain_controls ms
  count-retain_controls (_ ∷ ms) = let (a, b, c) = count-retain_controls ms in (a, b, ap suc c)

  pub replace_back-append :
      (ms : Queue Profile Ack) (old s : DesktopWorkerSnapshot)
      → replace_back Profile Ack (ms ++ (snapshot_message old ∷ [])) s
        ≡ some (ms ++ (snapshot_message s ∷ []))
  unfolding replace_back
  replace_back-append [] old s = refl
  replace_back-append (m ∷ []) old s = refl
  replace_back-append (m ∷ m' ∷ ms) old s = rw (replace_back-append (m' ∷ ms) old s) refl

  -- Taking the back away leaves what stood before it.
  abbrev pub IsPopped :
      Queue Profile Ack → Option (Queue Profile Ack × Message Profile Ack) → Type 0
  IsPopped ms none = Unit
  IsPopped ms (some (front, last)) =
      (ms ≡ front ++ (last ∷ [])) × (is_replace_profile Profile Ack last ≡ true)

  IsPopped-cons :
      (m : Message Profile Ack) (ms : Queue Profile Ack)
      (o : Option (Queue Profile Ack × Message Profile Ack))
      → IsPopped ms o
      → IsPopped (m ∷ ms) (elim o as (λ _. Option (Queue Profile Ack × Message Profile Ack)) [
        | none ↦ none
        | some (front, last) ↦ some (m ∷ front, last)
      ])
  IsPopped-cons m ms none h = tt
  IsPopped-cons m ms (some (front, last)) (e, r) = (ap (λ (t : Queue Profile Ack). m ∷ t) e, r)

  pub pop_replace_profile-IsPopped :
      (ms : Queue Profile Ack) → IsPopped ms (pop_replace_profile Profile Ack ms)
  unfolding pop_replace_profile
  pop_replace_profile-IsPopped [] = tt
  pop_replace_profile-IsPopped (m ∷ []) =
      if-cases (IsPopped (m ∷ [])) (is_replace_profile Profile Ack m) (λ r. (refl, r)) (λ r. tt)
  pop_replace_profile-IsPopped (m ∷ m' ∷ ms) =
      IsPopped-cons m (m' ∷ ms) _ (pop_replace_profile-IsPopped (m' ∷ ms))

  abbrev ends_in_snapshot : Queue Profile Ack → Bool
  ends_in_snapshot [] = false
  ends_in_snapshot (m ∷ []) = is_snapshot m
  ends_in_snapshot (m ∷ m' ∷ ms) = ends_in_snapshot (m' ∷ ms)

  ends_in_snapshot-append :
      (ms : Queue Profile Ack) (m : Message Profile Ack)
      → ends_in_snapshot (ms ++ (m ∷ [])) ≡ is_snapshot m
  ends_in_snapshot-append [] m = refl
  ends_in_snapshot-append (m' ∷ []) m = refl
  ends_in_snapshot-append (m' ∷ m'' ∷ ms) m = ends_in_snapshot-append (m'' ∷ ms) m

  -- One queue has one back.
  pub same_back :
      (front front' : Queue Profile Ack) (m m' : Message Profile Ack)
      → front ++ (m ∷ []) ≡ front' ++ (m' ∷ [])
      → is_snapshot m ≡ is_snapshot m'
  same_back front front' m m' e =
      sym (ends_in_snapshot-append front m)
      ∙ ap ends_in_snapshot e
      ∙ ends_in_snapshot-append front' m'

  -- What the counts see of a control message.
  pub record IsControl (m : Message Profile Ack) : Type 0 where
    pub no_snapshot : is_snapshot m ≡ false
    pub no_overflow : is_overflow m ≡ false
    pub control : is_control m ≡ true

  pub IsControl-message :
      (m : Message Profile Ack) → is_snapshot_or_overflow Profile Ack m ≡ false → IsControl m
  unfolding is_snapshot_or_overflow
  IsControl-message (snapshot_message s) k = absurd (ground arith)
  IsControl-message overflow k = absurd (ground arith)
  IsControl-message _ k = record { no_snapshot = refl; no_overflow = refl; control = refl }

  pub IsControl-replace_profile :
      (m : Message Profile Ack) → is_replace_profile Profile Ack m ≡ true → IsControl m
  unfolding is_snapshot_or_overflow is_replace_profile
  IsControl-replace_profile (replace_profile profile ack) r = record {
    no_snapshot = refl;
    no_overflow = refl;
    control = refl;
  }
  IsControl-replace_profile _ r = absurd (ground arith)
