-- ===== src/Transport/Receipt.antt =====
-- crates/bridge/bridge-output/src/bridge_transport.rs: the receipt that the firmware commits, and the
-- counters over the connections.
use steam_controller_bridge.Common.{
  ℕ, ◌≡◌, refl, sym, ◌∙◌, ok-injective, subst, arith, true, not, not-false, if-cases, and_left_true,
  and_right_true, ◌==◌, ==→eq, List, [], ◌∷◌, Result, ok, err, Option, none, some,
}
use steam_controller_bridge.Float.{Float}
use steam_controller_bridge.Protocol.Message.{
  InstallReceipt, InstallSource, app_center, first_observed, source_byte,
}
use steam_controller_bridge.Transport.Firmware.{
  FirmwareInstallReceipt, list_eq, receipt_eq, recorded,
}
use steam_controller_bridge.Transport.State.{
  BridgeTransportError, BridgeTransportMetrics, no_metrics, u64_add, awaiting_receipt,
  ByteTransport,
}
use steam_controller_bridge.Transport.Step.{
  Connection, Outcome, validate_receipt_response, take_receipt_recorded, record_receipt,
}
use steam_controller_bridge.Transport.Session.{
  Host, Failure, Output, Answer, and_next, complete, disconnect, polled, metrics,
}
use steam_controller_bridge.Transport.Backend.{
  or_control_error, finish_receipt, note_receipt, note_receipt_in, on_connection, record_receipt_in,
  record_install_receipt_and_wait, wait_for_control_response,
}

list_eq→eq : (xs ys : List ℕ) → list_eq xs ys ≡ true → xs ≡ ys
list_eq→eq [] [] e = refl
list_eq→eq [] (y ∷ ys) e = cc
list_eq→eq (x ∷ xs) [] e = cc
list_eq→eq (x ∷ xs) (y ∷ ys) e =
    let h = ==→eq x y (and_left_true (x == y) (list_eq xs ys) e) in
    let t = list_eq→eq xs ys (and_right_true (x == y) (list_eq xs ys) e) in rw (h, t) refl

source_byte-injective : (a b : InstallSource) → (source_byte a == source_byte b) ≡ true → a ≡ b
source_byte-injective app_center app_center e = refl
source_byte-injective app_center first_observed e = cc
source_byte-injective first_observed app_center e = cc
source_byte-injective first_observed first_observed e = refl

same_receipt :
    (t t' : ℕ) (i i' : List ℕ) (s s' : InstallSource)
    → t ≡ t'
    → i ≡ i'
    → s ≡ s'
    → ◌≡◌ {A = InstallReceipt}
        (record { installed_at = t; install_id = i; source = s })
        (record { installed_at = t'; install_id = i'; source = s' })
same_receipt t t' i i' s s' a b c = cc

receipt_eq→eq : (a b : InstallReceipt) → receipt_eq a b ≡ true → a ≡ b
receipt_eq→eq a b e =
    let rest = and_right_true (a.installed_at == b.installed_at) _ e in
    same_receipt a.installed_at b.installed_at a.install_id b.install_id a.source b.source
      (==→eq a.installed_at b.installed_at (and_left_true (a.installed_at == b.installed_at) _ e))
      (list_eq→eq a.install_id b.install_id
        (and_left_true (list_eq a.install_id b.install_id) _ rest))
      (source_byte-injective a.source b.source
        (and_right_true (list_eq a.install_id b.install_id) _ rest))

module _ (f : Float) (tr : ByteTransport) (host : Host tr) where
  abbrev C : Type 0
  C = Connection f tr

  -- A receipt that is answered is the requested one.
  abbrev IsRequested :
      ℕ
      → FirmwareInstallReceipt
      → ℕ
      → FirmwareInstallReceipt
      → Result BridgeTransportError FirmwareInstallReceipt
      → Type 0
  IsRequested request_id receipt actual committed (ok r) =
      (actual ≡ request_id) × (committed ≡ receipt) × (r ≡ receipt)
  IsRequested request_id receipt actual committed (err e) = Unit

  validate-IsRequested :
      (request_id actual : ℕ) (receipt committed : FirmwareInstallReceipt)
      → IsRequested request_id receipt actual committed
          (validate_receipt_response request_id receipt actual committed)
  unfolding validate_receipt_response
  validate-IsRequested request_id actual receipt committed =
      if-cases (IsRequested request_id receipt actual committed) (not (actual == request_id))
        (λ e. tt)
        (λ e.
          if-cases (IsRequested request_id receipt actual committed)
            (not (receipt_eq committed receipt)) (λ e'. tt)
            (λ e'. (
              ==→eq actual request_id (not-false (actual == request_id) e),
              receipt_eq→eq committed receipt (not-false (receipt_eq committed receipt) e'),
              receipt_eq→eq committed receipt (not-false (receipt_eq committed receipt) e'),
            )))

  -- The connection, if there is one, shows the receipt as recorded.
  abbrev pub ShowsRecorded : FirmwareInstallReceipt → Option C → Type 0
  ShowsRecorded receipt none = Unit
  ShowsRecorded receipt (some c) = c.firmware.install_state ≡ recorded receipt

  -- The receipt of the answer is the requested one, a connection shows it, and it is what the
  -- firmware's answer carried, under the identifier of the request.
  abbrev pub IsCommitted :
      ℕ
      → FirmwareInstallReceipt
      → Answer f tr host (ℕ × FirmwareInstallReceipt)
      → Output f tr host
      → FirmwareInstallReceipt
      → Type 0
  IsCommitted request_id receipt waited o r =
      (r ≡ receipt) × ShowsRecorded receipt o.connection × (waited.1 ≡ ok (request_id, receipt))

  note_receipt-ShowsRecorded :
      (o : Output f tr host) (receipt : FirmwareInstallReceipt)
      → ShowsRecorded receipt (note_receipt f tr host o receipt).connection
  unfolding record_receipt_in
  note_receipt-ShowsRecorded o receipt = noted o.connection refl
    where
      noted :
          (k : Option C)
          → o.connection ≡ k
          → ShowsRecorded receipt (note_receipt_in f tr host o receipt k).connection
      noted none e = subst (ShowsRecorded receipt) (sym e) tt
      noted (some c) e = refl

  finish_receipt-IsCommitted :
      (request_id : ℕ) (receipt r : FirmwareInstallReceipt)
      (x : Answer f tr host (ℕ × FirmwareInstallReceipt))
      → (finish_receipt f tr host request_id receipt x).1 ≡ ok r
      → IsCommitted request_id receipt x (finish_receipt f tr host request_id receipt x).0 r
  finish_receipt-IsCommitted request_id receipt r (o, err e) k = cc
  finish_receipt-IsCommitted request_id receipt r (o, ok (actual, committed)) k =
      go (validate_receipt_response request_id receipt actual committed)
        (validate-IsRequested request_id actual receipt committed) k
    where
      answer :
          Result BridgeTransportError FirmwareInstallReceipt
          → Answer f tr host FirmwareInstallReceipt
      answer v = elim v [
        | err e ↦ (o, err (Failure.failed e))
        | ok q ↦ (note_receipt f tr host o q, ok q)
      ]

      go :
          (v : Result BridgeTransportError FirmwareInstallReceipt)
          → IsRequested request_id receipt actual committed v
          → (answer v).1 ≡ ok r
          → IsCommitted request_id receipt (o, ok (actual, committed)) (answer v).0 r
      go (ok q) (a, c, e) k = (
        sym (ok-injective k) ∙ e,
        subst (λ q'. ShowsRecorded q' (note_receipt f tr host o q).connection) e
            (note_receipt-ShowsRecorded o q),
        rw (a, c) refl,
      )
      go (err e) h k = cc

  -- The request, and the wait for its answer.
  abbrev pub asked : Output f tr host → ℕ → FirmwareInstallReceipt → Answer f tr host (Unit {0})
  asked o request_id receipt =
      on_connection f tr host o (λ c. record_receipt f tr c request_id receipt) o.connection

  abbrev pub waited : Output f tr host → ℕ → ℕ → Answer f tr host (ℕ × FirmwareInstallReceipt)
  waited o request_id timeout =
      wait_for_control_response f tr host o timeout awaiting_receipt
        (λ c. or_control_error f tr host (take_receipt_recorded f tr c) request_id)

  and_next-IsCommitted :
      (request_id timeout : ℕ) (receipt r : FirmwareInstallReceipt)
      (x : Answer f tr host (Unit {0}))
      → let y =
          and_next f tr host x
            (λ o. finish_receipt f tr host request_id receipt (waited o request_id timeout)) in
        y.1 ≡ ok r → IsCommitted request_id receipt (waited (x.0) request_id timeout) y.0 r
  and_next-IsCommitted request_id timeout receipt r (o, err e) k = cc
  and_next-IsCommitted request_id timeout receipt r (o, ok _) k =
      finish_receipt-IsCommitted request_id receipt r (waited o request_id timeout) k

  -- If recording a receipt succeeds, then the wait behind the request got the identifier of the
  -- request and the requested receipt as the firmware's answer, the receipt that is returned is
  -- the requested one, and a connection of the output shows it as recorded.
  pub record_install_receipt_and_wait-IsCommitted :
      (o : Output f tr host) (request_id timeout : ℕ) (receipt r : FirmwareInstallReceipt)
      → (record_install_receipt_and_wait f tr host o request_id receipt timeout).1 ≡ ok r
      → IsCommitted request_id receipt
          (waited (asked o request_id receipt).0 request_id timeout)
          (record_install_receipt_and_wait f tr host o request_id receipt timeout).0
          r
  unfolding record_install_receipt_and_wait
  record_install_receipt_and_wait-IsCommitted o request_id timeout receipt r k =
      and_next-IsCommitted request_id timeout receipt r (asked o request_id receipt) k

  u64_add-zero : (a b : ℕ) → u64_add (u64_add a b) 0 ≡ u64_add a b
  unfolding u64_add
  u64_add-zero a b = omega arith

  complete-no_metrics :
      (m m' : BridgeTransportMetrics) → complete (complete m m') no_metrics ≡ complete m m'
  unfolding complete
  complete-no_metrics m m' = simp u64_add-zero refl

  -- After a poll, whether it succeeded or failed and so ended the connection, the counters of the
  -- output are those of the completed connections with those of the connection that was polled.
  pub metrics-polled :
      (o : Output f tr host) (now : ℕ) (x : Outcome f tr)
      → metrics f tr host (polled f tr host o now x).0 ≡ complete o.completed (x.0).metrics
  unfolding metrics polled disconnect
  metrics-polled o now (c, ok _) = refl
  metrics-polled o now (c, err e) = complete-no_metrics o.completed c.metrics
