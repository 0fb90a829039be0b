-- ===== src/Lfs/Batch.antt =====
-- The batch handler (mizzle/src/lfs/batch.rs). The JSON of requests and replies is serde's: the body
-- is what it parses to, and the reply is what is serialized.
use mizzle.Base.{
  ℕ, ◌-◌, ◌/◌, Bytes, List, [], ◌∷◌, ◌++◌, Option, none, some, ok, err, codes, leb, if◌then◌else◌,
}
use mizzle.Lfs.Oid.{LfsOid, to_hex}
use mizzle.Lfs.Store.{LfsStore, Operation, download, upload, TransferAction, proxy, redirect}

pub record BatchRequestObject : Type 0 where
  pub oid : LfsOid
  pub size : ℕ

pub record BatchRequest : Type 0 where
  pub operation : Operation
  pub objects : List BatchRequestObject
  pub git_ref : Option Bytes

pub record BatchActionDetail : Type 0 where
  pub href : Bytes
  pub header : List (Bytes × Bytes)
  pub expires_in : Option ℕ

pub record BatchObjectActions : Type 0 where
  pub download_detail : Option BatchActionDetail
  pub upload_detail : Option BatchActionDetail
  pub verify_detail : Option BatchActionDetail

pub record BatchObjectError : Type 0 where
  pub code : ℕ
  pub message : Bytes

pub record BatchResponseObject : Type 0 where
  pub oid : LfsOid
  pub size : ℕ
  pub actions : Option BatchObjectActions
  pub error : Option BatchObjectError

-- The reply: a message, or the objects of a `BatchResponse`.
pub data BatchReply : Type 0 where
  message_reply : Bytes → BatchReply
  objects_reply : List BatchResponseObject → BatchReply

-- `duration_since(now)`, in seconds; `none` where the time has passed.
abbrev pub seconds_until : ℕ → Option ℕ → Option ℕ
seconds_until now none = none
seconds_until now (some t) = if leb now t then some ((t - now) / 1000000000) else none

unfoldable pub transfer_action_to_detail : ℕ → TransferAction → LfsOid → Bytes → BatchActionDetail
unfolding to_hex
transfer_action_to_detail now proxy oid lfs_base_url = record {
  href = lfs_base_url ++ (codes "/objects/" ++ to_hex oid);
  header = [];
  expires_in = none;
}
transfer_action_to_detail now (redirect href header expires_at) oid lfs_base_url = record {
  href = href;
  header = header;
  expires_in = seconds_until now expires_at;
}

abbrev pub failed : BatchRequestObject → ℕ → Bytes → BatchResponseObject
failed obj code message = record {
  oid = obj.oid;
  size = obj.size;
  actions = none;
  error = some (record { code = code; message = message });
}

abbrev pub acted : BatchRequestObject → Option BatchObjectActions → BatchResponseObject
acted obj actions = record { oid = obj.oid; size = obj.size; actions = actions; error = none }

module _ (L : LfsStore) (now : ℕ) (lfs_base_url : Bytes) where
  open L use {State, Repo, handle, stat, download_action, upload_action, authorize_lfs}

  -- An object of a download.
  unfoldable pub answer_download : State → Repo → BatchRequestObject → BatchResponseObject
  unfolding transfer_action_to_detail
  answer_download s repo obj = elim (stat s repo obj.oid) [
    | err e ↦ failed obj 500 (codes "stat error: " ++ e)
    | ok none ↦ failed obj 404 (codes "object not found")
    | ok (some size) ↦ elim (download_action s repo obj.oid size) [
      | err e ↦ failed obj 500 (codes "download_action error: " ++ e)
      | ok action ↦ acted obj (
          some (record {
            download_detail = some (transfer_action_to_detail now action obj.oid lfs_base_url);
            upload_detail = none;
            verify_detail = none;
          }))
    ]
  ]

  -- An object of an upload.
  unfoldable pub answer_upload : State → Repo → BatchRequestObject → BatchResponseObject
  unfolding transfer_action_to_detail
  answer_upload s repo obj = elim (stat s repo obj.oid) [
    | err e ↦ failed obj 500 (codes "stat error: " ++ e)
    | ok (some size) ↦ acted obj none
    | ok none ↦ elim (upload_action s repo obj.oid obj.size) [
      | err e ↦ failed obj 500 (codes "upload_action error: " ++ e)
      | ok action ↦ acted obj (
          some (record {
            download_detail = none;
            upload_detail = some (transfer_action_to_detail now action obj.oid lfs_base_url);
            verify_detail = some (record {
              href = lfs_base_url ++ codes "/objects/verify";
              header = [];
              expires_in = none;
            });
          }))
    ]
  ]

  abbrev pub answer_object : State → Repo → Operation → BatchRequestObject → BatchResponseObject
  answer_object s repo download obj = answer_download s repo obj
  answer_object s repo upload obj = answer_upload s repo obj

  unfoldable pub answer_objects :
      State → Repo → Operation → List BatchRequestObject → List BatchResponseObject
  unfolding answer_download answer_upload
  answer_objects s repo op [] = []
  answer_objects s repo op (obj ∷ objects) =
      answer_object s repo op obj ∷ answer_objects s repo op objects

  -- `none` is a body that does not parse.
  unfoldable pub handle_batch : State → Option BatchRequest → ℕ × BatchReply
  unfolding answer_objects
  handle_batch s none = (400, message_reply (codes "invalid request"))
  handle_batch s (some req) = elim (authorize_lfs req.operation req.git_ref) [
    | err reason ↦ (403, message_reply reason)
    | ok u ↦ elim (handle s) [
      | err e ↦ (500, message_reply (codes "failed to open LFS store: " ++ e))
      | ok repo ↦ (200, objects_reply (answer_objects s repo req.operation req.objects))
    ]
  ]
