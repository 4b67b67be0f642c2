-- ===== src/Buffer/Limited.antt =====
-- That the transmission limit of a tracked message takes effect.
use go_uspclient.Base.{◌+◌, ◌^◌, ◌<◌, ◌≡◌, ◌⊎◌, true, false, Option, some, add64}
use go_uspclient.Protocol.Messages.{DataMessage}
use go_uspclient.Buffer.State.{AckBuffer, TrackedAdmission, is_retired, retired}
use go_uspclient.Buffer.Deliver.{find_entry}

-- Delivery has come to the slot of `e`, a tracked message with a limit, and the cursor stands at it.
pub record IsNext (e : TrackedAdmission) (b : AckBuffer) : Type 0 where
  pub ready : b.is_ready_to_deliver.v ≡ true
  pub waits : b.next_index_to_deliver < b.next_index_free
  pub found : find_entry b.deliver_cursor b.receipts ≡ some e
  pub at : e.seq ≡ add64 b.first_seq_num b.next_index_to_deliver
  pub live : is_retired e.seq b ≡ false
  pub limited : 0 < e.max
  pub small : e.max < 2 ^ 32

-- Below its limit the message is handed out and counted; at the limit it is retired.
abbrev pub IsLimited : TrackedAdmission → Option DataMessage × AckBuffer → Type 0
IsLimited e (r, b') =
    ((e.sends < e.max)
      × ((m : DataMessage) × (r ≡ some m) × (m.seq_num ≡ e.seq))
      × (find_entry (some e.state) b'.receipts ≡ some (record e { sends = e.sends + 1 })))
    ⊎ ((e.sends ≡ e.max) × (b'.cells e.state ≡ retired))
