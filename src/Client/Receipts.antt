-- ===== src/Client/Receipts.antt =====
-- receipt.go: the owner of a client's receipts, and what a receipt observes.
use go_uspclient.Base.{
  ℕ, Bool, true, false, ◌&&◌, ◌⊎◌, inl, inr, not, Option, none, some, ltb, ◌==◌, if◌then◌else◌,
}
use go_uspclient.Buffer.State.{
  ReceiptFrameState, invalid, retained, acknowledged, closed_unconfirmed, retired,
}
use go_uspclient.Buffer.Blocking.{AddError}
use go_uspclient.Client.State.{ReceiptLifetime, unknown, live, closing, closed, rank, Client}

-- The addresses of the owner and of the cell; `none` is nil.
pub record AdmissionReceipt : Type 0 where
  pub owner : Option ℕ
  pub state : Option ℕ

pub record ReceiptObservation : Type 0 where
  pub frame : ReceiptFrameState
  pub lifetime : ReceiptLifetime

abbrev pub no_observation : ReceiptObservation
no_observation = record { frame = invalid; lifetime = unknown }

-- `if c.isClosing.Load() && lifetime < ReceiptClosing`
abbrev pub raise : Bool → ReceiptLifetime → ReceiptLifetime
raise is_closing l = if is_closing && ltb (rank l) (rank closing) then closing else l

abbrev live_if_unknown : ReceiptLifetime → ReceiptLifetime
live_if_unknown unknown = live
live_if_unknown l = l

abbrev or_new_owner : ReceiptLifetime → Option ReceiptLifetime → Option ReceiptLifetime
or_new_owner l none = some l
or_new_owner l (some o) = some o

-- `admissionReceiptOwner`
unfoldable pub admission_receipt_owner : Client → Client
admission_receipt_owner c = record c {
  receipt_owner =
      or_new_owner (live_if_unknown (raise c.is_closing c.receipt_lifetime)) c.receipt_owner;
}

-- Whether the frame is in one of the states that an admitted frame has.
abbrev pub is_admitted : ReceiptFrameState → Bool
is_admitted retained = true
is_admitted acknowledged = true
is_admitted retired = true
is_admitted s = false

abbrev pub unless_closed :
    ReceiptLifetime → ReceiptFrameState → ReceiptFrameState → ReceiptFrameState
unless_closed closed first last = last
unless_closed l first last = first

abbrev pub unconfirmed : ReceiptLifetime → ReceiptFrameState → ReceiptFrameState
unconfirmed closed retained = closed_unconfirmed
unconfirmed l s = s

-- `ObserveReceipt` after its loads: the frame, the owner's lifetime, the frame again, `isClosing`.
unfoldable pub observation :
    ReceiptFrameState → ReceiptLifetime → ReceiptFrameState → Bool → ReceiptObservation
observation first l last is_closing =
    if is_admitted first
    then record {
      frame = unconfirmed (raise is_closing l) (unless_closed l first last);
      lifetime = raise is_closing l;
    }
    else no_observation

-- `ObserveReceipt` of a client whose owner stands, or will, at `address`. It takes no lock: the
-- arguments are the client at the loads of the owner, the frame, the lifetime, the frame again and
-- `isClosing`.
unfoldable pub observe_receipt :
    ℕ → AdmissionReceipt → Client → Client → Client → Client → Client → ReceiptObservation
observe_receipt address r c₀ c₁ c₂ c₃ c₄ = elim r.owner [
  | none ↦ no_observation
  | some o ↦ elim r.state [
    | none ↦ no_observation
    | some cell ↦ elim c₀.receipt_owner [
      | none ↦ no_observation
      | some _ ↦ elim c₂.receipt_owner [
        | none ↦ no_observation
        | some l ↦
            if o == address
            then observation (c₁.buffer.cells cell) l (c₃.buffer.cells cell) c₄.is_closing
            else no_observation
      ]
    ]
  ]
]

pub data ReceiptError : Type 0 where
  receipt_unavailable receipt_closed : ReceiptError
  not_added : AddError → ReceiptError

-- `ShipWithReceiptOptions` around `addWithReceipt`, whose error is given: in test sink mode or not,
-- with a buffer or not, and the cell that the call makes.
unfoldable pub ship_with_receipt_options :
    Bool → Bool → Option AddError → ℕ → ℕ → Client → (ReceiptError ⊎ AdmissionReceipt) × Client
ship_with_receipt_options test_sink_mode has_buffer err address cell c =
    if test_sink_mode
    then (inl receipt_unavailable, c)
    else if not has_buffer
    then (inl receipt_closed, c)
    else elim err [
      | some e ↦ (inl (not_added e), c)
      | none ↦ (inr (record { owner = some address; state = some cell }), admission_receipt_owner c)
    ]
