-- ===== src/Client/Settled.antt =====
-- The receipts of a client once `Close` has returned.
use go_uspclient.Base.{
  ℕ, ◌≡◌, refl, ap, sym, ◌∙◌, Bool, List, Option, none, some, arith, get_elem?, inl, inr,
  if◌then◌else◌,
}
use go_uspclient.Protocol.Messages.{DataMessage}
use go_uspclient.Buffer.State.{AckBuffer, ReceiptFrameState}
use go_uspclient.Client.State.{ReceiptLifetime, closed, store_owner, Client, set_receipt_lifetime}
use go_uspclient.Client.Receipts.{
  ReceiptObservation, no_observation, admission_receipt_owner, is_admitted, unconfirmed,
  observation, observe_receipt,
}
use go_uspclient.Client.Threads.{returned}
use go_uspclient.Client.System.{Move, moves, new_system}
use go_uspclient.Client.Keeping.{AllFitMoves, Keeps}
use go_uspclient.Client.Threading.{moves_keeps}
use go_uspclient.Client.Observing.{observed}
use go_uspclient.Client.Final.{later, IsFinal, IsFinal-kept}
use go_uspclient.Client.Timely.{AllDue-get, moves-OnTime, new_system-OnTime}

pub returned-IsFinal :
    (ms : List Move) (b : AckBuffer) (i : ℕ) (messages : List (Option DataMessage))
    → AllFitMoves ms
    → get_elem? (moves ms (new_system b)).threads i ≡ some (returned messages)
    → (f : ℕ → ReceiptFrameState) × IsFinal f (moves ms (new_system b)).client
returned-IsFinal ms b i messages h e =
    AllDue-get _ _ i (returned messages) e (moves-OnTime ms (new_system b) h (new_system-OnTime b))

IsFinal-cells : (f : ℕ → ReceiptFrameState) (c : Client) → IsFinal f c → c.buffer.cells ≡ f
IsFinal-cells f c h = h.detached.cells

-- Once a call of `Close` has returned, no later steps of the client's goroutines, its callers and
-- the proxy, ACKs and calls of `Ship` included, change what is kept of any receipt.
pub returned-keeps_cells :
    (before after : List Move) (b : AckBuffer) (i : ℕ) (messages : List (Option DataMessage))
    → AllFitMoves before
    → AllFitMoves after
    → get_elem? (moves before (new_system b)).threads i ≡ some (returned messages)
    → let s = moves before (new_system b) in
      (moves after s).client.buffer.cells ≡ s.client.buffer.cells
returned-keeps_cells before after b i messages h k e =
    let s = moves before (new_system b) in
    let (f, final) = returned-IsFinal before b i messages h e in
    cc (
      IsFinal-cells f _ (moves_keeps (IsFinal-kept f) after s k final),
      IsFinal-cells f s.client final,
    )

-- The client has made its owner.
abbrev IsOwned : Client → Type 0
IsOwned c = (l : ReceiptLifetime) × (c.receipt_owner ≡ some l)

-- `Store` and `admissionReceiptOwner` on an owner that exists.
store_owner-some :
    (l : ReceiptLifetime) (o : Option ReceiptLifetime) (x : ReceiptLifetime)
    → o ≡ some x
    → store_owner l o ≡ some l
store_owner-some l none x e = absurd (cc e)
store_owner-some l (some o) x e = refl

IsOwned-set_receipt_lifetime :
    (l : ReceiptLifetime) (c : Client) → IsOwned c → IsOwned (set_receipt_lifetime l c)
unfolding set_receipt_lifetime
IsOwned-set_receipt_lifetime l c (x, e) =
    (later l c.receipt_lifetime, store_owner-some (later l c.receipt_lifetime) c.receipt_owner x e)

IsOwned-admission_receipt_owner : (c : Client) → IsOwned c → IsOwned (admission_receipt_owner c)
unfolding admission_receipt_owner
IsOwned-admission_receipt_owner c (x, e) = (x, ground (arith, e))

IsOwned-kept : Keeps IsOwned
IsOwned-kept = record {
  rest = λ c c' e (x, h). (x, e.2 ∙ h);
  acks = λ n c h. h;
  window = λ n c f h. h;
  delivery = λ c h. h;
  reset = λ c h. h;
  seal = λ c h. h;
  detach = λ c h. h;
  lifetime = IsOwned-set_receipt_lifetime;
  owner = IsOwned-admission_receipt_owner;
  drain = λ c h. h;
  polls = λ done c h. h;
  timeout = λ w c h. h;
  add = λ e size waiter receipt limit c h. h;
}

-- What a receipt of a closed client observes for ever: `closed`, and the frame as it was left, a
-- retained one as unconfirmed.
abbrev pub settled : ReceiptFrameState → ReceiptObservation
settled s =
    if is_admitted s
    then record { frame = unconfirmed closed s; lifetime = closed }
    else no_observation

observation_closed : (s : ReceiptFrameState) (b : Bool) → observation s closed s b ≡ settled s
unfolding observation
observation_closed s b = ground arith

owned_closed :
    (f : ℕ → ReceiptFrameState) (c : Client)
    → IsFinal f c
    → IsOwned c
    → c.receipt_owner ≡ some closed
owned_closed f c h (x, e) = elim h.owner [ inl n ↦ absurd (cc (n, e)) | inr q ↦ q ]

-- A receipt of the client itself, at the states of its five loads.
observe_final :
    (address cell : ℕ) (f : ℕ → ReceiptFrameState) (c₀ c₁ c₂ c₃ c₄ : Client)
    → c₀.receipt_owner ≡ some closed
    → c₁.buffer.cells ≡ f
    → c₂.receipt_owner ≡ some closed
    → c₃.buffer.cells ≡ f
    → observe_receipt address (record { owner = some address; state = some cell }) c₀ c₁ c₂ c₃ c₄
      ≡ settled (f cell)
unfolding observe_receipt
observe_final address cell f c₀ c₁ c₂ c₃ c₄ o₀ e₁ o₂ e₃ = ground (
  arith,
  o₀,
  o₂,
  ap (λ g. g cell) e₁,
  ap (λ g. g cell) e₃,
  observation_closed (f cell) c₄.is_closing,
)

-- Five lists of steps, one after the other.
abbrev FiveFit : (ms₀ ms₁ ms₂ ms₃ ms₄ : List Move) → Type 0
FiveFit ms₀ ms₁ ms₂ ms₃ ms₄ =
    AllFitMoves ms₀ × AllFitMoves ms₁ × AllFitMoves ms₂ × AllFitMoves ms₃ × AllFitMoves ms₄

-- `ObserveReceipt` of a client whose `Close` has returned and that has made its owner, for a receipt
-- of its own, reports `closed` and the frame as `Close` left it, a retained one as unconfirmed,
-- whatever steps run before and between its loads.
pub observe_receipt_settled :
    (before ms₀ ms₁ ms₂ ms₃ ms₄ : List Move) (b : AckBuffer) (i address cell : ℕ)
    (messages : List (Option DataMessage)) (l : ReceiptLifetime)
    → AllFitMoves before
    → FiveFit ms₀ ms₁ ms₂ ms₃ ms₄
    → get_elem? (moves before (new_system b)).threads i ≡ some (returned messages)
    → (moves before (new_system b)).client.receipt_owner ≡ some l
    → let s = moves before (new_system b) in
      observed ms₀ ms₁ ms₂ ms₃ ms₄ s address cell ≡ settled (s.client.buffer.cells cell)
observe_receipt_settled before ms₀ ms₁ ms₂ ms₃ ms₄ b i address cell messages l h k e o =
    let s = moves before (new_system b) in
    let (f, final) = returned-IsFinal before b i messages h e in
    let keeps = IsFinal-kept f in
    let f₀ = moves_keeps keeps ms₀ s k.0 final in
    let o₀ = moves_keeps IsOwned-kept ms₀ s k.0 (l, o) in
    let s₀ = moves ms₀ s in
    let f₁ = moves_keeps keeps ms₁ s₀ k.1 f₀ in
    let o₁ = moves_keeps IsOwned-kept ms₁ s₀ k.1 o₀ in
    let s₁ = moves ms₁ s₀ in
    let f₂ = moves_keeps keeps ms₂ s₁ k.2 f₁ in
    let o₂ = moves_keeps IsOwned-kept ms₂ s₁ k.2 o₁ in
    let s₂ = moves ms₂ s₁ in
    let f₃ = moves_keeps keeps ms₃ s₂ k.3 f₂ in
    let s₃ = moves ms₃ s₂ in
    let seen =
      observe_final address cell f s₀.client s₁.client s₂.client s₃.client (moves ms₄ s₃).client
        (owned_closed f _ f₀ o₀) (IsFinal-cells f _ f₁) (owned_closed f _ f₂ o₂)
        (IsFinal-cells f _ f₃) in
    seen
    ∙ ap (λ (g : ℕ → ReceiptFrameState). settled (g cell)) (sym (IsFinal-cells f s.client final))
