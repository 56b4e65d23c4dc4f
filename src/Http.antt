-- ===== src/Http.antt =====
-- What the handlers of api and routers answer (api/controller.go, define/retcode/retcode.go).
use go_websocket.Prelude.{ℕ, List}
use go_websocket.Prelude.Text.{Str}
use go_websocket.Prelude.Result.{Error}
use go_websocket.Prelude.Int.{ℤ, pos, negsuc}

-- The texts of the answers.
pub data Message : Type 0 where
  success_text etcd_broken system_id_missing system_id_invalid : Message
  -- an error's text, and the translated text of the first field that fails
  said : Error → Message
  invalid_field : Str → Message

-- The field Data of RetData.
pub data Content : Type 0 where
  no_items no_fields : Content
  message_id : Str → Content
  online_list : ℕ → List Str → Content
  statistics : List Str → ℕ → Content

-- WriteHeader with a status, or Render.
pub data Response : Type 0 where
  status : ℕ → Response
  render : ℤ → Message → Content → Response

abbrev pub success : ℤ
success = pos 0

abbrev pub fail : ℤ
fail = negsuc 0
