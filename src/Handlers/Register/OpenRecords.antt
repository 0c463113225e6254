-- ===== src/Handlers/Register/OpenRecords.antt =====
-- The records at Cloudflare that stand open after a history of calls, and the rollback of those
-- of a registration.
use rdoc_cam_hub.Common.{
  Text, Option, none, some, List, [], ◌∷◌, ◌==◌, text_eq, if◌then◌else◌, ◌≡◌, ◌≢◌, inl, inr, ap,
  ◌∙◌, arith, Bool-cases, text_beq_iff, ==-refl,
}
use rdoc_cam_hub.Store.{Env, Result, Database}
use rdoc_cam_hub.Store.Devices.{device_delete}
use rdoc_cam_hub.Handlers.{
  DnsClient, CfCall, create_record, update_record, delete_record, World, cf_send, on_db,
}
use rdoc_cam_hub.Handlers.Register.{best_effort_cf_delete, cf_rollback, best_effort_device_delete}

unfoldable pub remove_first : Text → List Text → List Text
remove_first id [] = []
remove_first id (x ∷ xs) = if x == id then xs else x ∷ remove_first id xs

unfoldable pub with_id : Option Text → List Text → List Text
with_id none ids = ids
with_id (some id) ids = id ∷ ids

-- The ids that a history of calls has created and has not sent a deletion for, the latest first.
unfoldable pub open_records : DnsClient → List CfCall → List Text
unfolding remove_first with_id
open_records cf [] = []
open_records cf (create_record name rt value ∷ log) =
    with_id (cf.created log (create_record name rt value)) (open_records cf log)
open_records cf (update_record id name rt value ∷ log) = open_records cf log
open_records cf (delete_record id ∷ log) = remove_first id (open_records cf log)

-- CreateRecord answers with an id that is not empty, or with an error.
abbrev pub NamesRecords : DnsClient → Type 0
NamesRecords cf = (log : List CfCall) (call : CfCall) → cf.created log call ≢ some []

module _ (cf : DnsClient) where
  -- The two records of a registration are the latest ones, over those of before.
  pub data Opened (w : World) (before : List Text) (a_id aaaa_id : Text) : Type 0 where
    only_a :
        a_id ≢ []
        → aaaa_id ≡ []
        → open_records cf w.cf_calls ≡ a_id ∷ before
        → Opened w before a_id aaaa_id
    both :
        a_id ≢ []
        → aaaa_id ≢ []
        → open_records cf w.cf_calls ≡ aaaa_id ∷ a_id ∷ before
        → Opened w before a_id aaaa_id

  pub deleted_one :
      (w : World) (id : Text)
      → id ≢ []
      → open_records cf (best_effort_cf_delete cf w id).cf_calls
        ≡ remove_first id (open_records cf w.cf_calls)
  unfolding best_effort_cf_delete cf_send open_records
  deleted_one w id ne = ground (arith, text_beq_iff id [])

  pub removed_head : (id : Text) (ids : List Text) → remove_first id (id ∷ ids) ≡ ids
  unfolding remove_first
  removed_head id ids = ground (arith, ==-refl id)

  removed_both :
      (a b : Text) (ids : List Text) → remove_first b (remove_first a (b ∷ a ∷ ids)) ≡ ids
  unfolding remove_first
  removed_both a b ids = ground (arith, ==-refl a, ==-refl b, text_beq_iff b a, text_beq_iff a b)

  rollback_a :
      (w : World) (a_id aaaa_id : Text)
      → aaaa_id ≡ []
      → cf_rollback cf w a_id aaaa_id ≡ best_effort_cf_delete cf w a_id
  unfolding cf_rollback
  rollback_a w a_id aaaa_id empty = ground (arith, text_beq_iff aaaa_id [])

  rollback_both :
      (w : World) (a_id aaaa_id : Text)
      → aaaa_id ≢ []
      → cf_rollback cf w a_id aaaa_id
        ≡ best_effort_cf_delete cf (best_effort_cf_delete cf w a_id) aaaa_id
  unfolding cf_rollback
  rollback_both w a_id aaaa_id ne = ground (arith, text_beq_iff aaaa_id [])

  pub cf_rollback_open :
      (w : World) (before : List Text) (a_id aaaa_id : Text)
      → Opened w before a_id aaaa_id
      → open_records cf (cf_rollback cf w a_id aaaa_id).cf_calls ≡ before
  cf_rollback_open w before a_id aaaa_id (only_a ne empty e) =
      ap (λ (x : World). open_records cf x.cf_calls) (rollback_a w a_id aaaa_id empty)
      ∙ (deleted_one w a_id ne ∙ (ap (remove_first a_id) e ∙ removed_head a_id before))
  cf_rollback_open w before a_id aaaa_id (both ne ne' e) =
      ap (λ (x : World). open_records cf x.cf_calls) (rollback_both w a_id aaaa_id ne')
      ∙ (deleted_one (best_effort_cf_delete cf w a_id) aaaa_id ne'
          ∙ (ap (remove_first aaaa_id) (deleted_one w a_id ne ∙ ap (remove_first a_id) e)
              ∙ removed_both a_id aaaa_id before))

  pub Opened-on_db :
      {A : Type 0} (w : World) (run : Database → Result A × Database) (before : List Text)
      (a_id aaaa_id : Text)
      → Opened w before a_id aaaa_id
      → Opened (on_db w run).1 before a_id aaaa_id
  unfolding on_db
  Opened-on_db w run before a_id aaaa_id (only_a ne empty e) = only_a ne empty e
  Opened-on_db w run before a_id aaaa_id (both ne ne' e) = both ne ne' e

  pub Opened-device_delete :
      (env : Env) (w : World) (id : Text) (before : List Text) (a_id aaaa_id : Text)
      → Opened w before a_id aaaa_id
      → Opened (best_effort_device_delete env w id) before a_id aaaa_id
  unfolding best_effort_device_delete
  Opened-device_delete env w id before a_id aaaa_id o = elim (Bool-cases (id == [])) [
    | inl empty ↦ rw empty o
    | inr given ↦ rw given (Opened-on_db w (λ d. device_delete env d id) before a_id aaaa_id o)
  ]
