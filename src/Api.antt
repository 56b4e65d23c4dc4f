-- ===== src/Api.antt =====
-- api: the handlers of the HTTP interface. The JSON decoder, the validator and the UUIDs are
-- parameters: `body` is what decoding gives, `none` where it fails.

pub mod Laws
pub mod Groups
pub mod Delivery
use go_websocket.Prelude.{ℕ, ◌+◌, ◌≡◌, ◌≢◌, ◌↔◌, Bool, Option, none, some, List, [], ◌∷◌}
use go_websocket.Prelude.Text.{Str}
use go_websocket.Prelude.Result.{Result, ok, err, panic}
use go_websocket.Prelude.Int.{ℤ}
use go_websocket.Rpc.{Network}
use go_websocket.Crypto.{Cipher}
use go_websocket.Util.{gen_uuid}
use go_websocket.Account.{Etcd, Accounts, AccountInfo, register}
use go_websocket.Http.{
  Message, success_text, said, invalid_field, Content, no_items, no_fields, message_id, online_list,
  statistics, Response, status, render, success, fail,
}
use go_websocket.World.{ClientInfo, World, Progress, done, blocked, crashed, ◌>>=◌}
use go_websocket.Server.{
  send_message2_client, close_client, client_statistics, add_client2_group_by_id,
  send_message2_group, get_online_list,
}

-- A field with the tag `required`: a string, or a slice that may be nil.
pub data Field : Type 0 where
  text : Str → Field
  slice : Option (List Str) → Field

abbrev pub IsFilled : Field → Type 0
IsFilled (text s) = s ≢ []
IsFilled (slice l) = l ≢ none

abbrev pub AllFilled : List Field → Type 0
AllFilled [] = Unit {0}
AllFilled (f ∷ fields) = IsFilled f × AllFilled fields

-- Validate: the translated error of the first field that fails, or none.
abbrev pub Validator : Type 0
Validator = List Field → Option Str

-- `required` asks that a field is not its zero value.
abbrev pub IsRequired : Validator → Type 0
IsRequired validate = (fields : List Field) → (validate fields ≡ none) ↔ AllFilled fields

-- How far a handler comes: to its reply, to a wait, or to a panic.
pub data Served {ℓ} (W : Type ℓ) : Type ℓ where
  replied : W → Response → Served W
  stays : W → Served W
  gives_up : Served W

infixl 5 ◌>=>◌
abbrev pub ◌>=>◌ {ℓ} : {V : Type ℓ} → Progress V → (V → Served V) → Served V
done v >=> f = f v
blocked v >=> f = stays v
crashed >=> f = gives_up

module _ {A W : Type 0} (fields : A → List Field) (validate : Validator) (w : W) where
  abbrev pub unless_invalid : Option Str → Served W → Served W
  unless_invalid none act = act
  unless_invalid (some e) act = replied w (render fail (invalid_field e) no_items)

  -- What every handler begins with: decode, validate, and then act.
  unfoldable pub serve : Option A → (A → Served W) → Served W
  serve none act = replied w (status 400)
  serve (some input) act = unless_invalid (validate (fields input)) (act input)

abbrev pub succeed {ℓ} : {W : Type ℓ} → Content → W → Served W
succeed content w = replied w (render success success_text content)

-- The inputs of the handlers, each with its required fields.
pub record Send2Client : Type 0 where
  pub client_id : Str
  pub send_user_id : Str
  pub code : Str
  pub msg : Str
  pub content : Str

abbrev pub send2_client_fields : Send2Client → List Field
send2_client_fields i = text i.client_id ∷ []

pub record Send2Clients : Type 0 where
  pub client_ids : Option (List Str)
  pub send_user_id : Str
  pub code : Str
  pub msg : Str
  pub content : Str

abbrev pub send2_clients_fields : Send2Clients → List Field
send2_clients_fields i = slice i.client_ids ∷ []

pub record Send2Group : Type 0 where
  pub send_user_id : Str
  pub group_name : Str
  pub code : ℤ
  pub msg : Str
  pub content : Str

abbrev pub send2_group_fields : Send2Group → List Field
send2_group_fields i = text i.group_name ∷ []

pub record Bind2Group : Type 0 where
  pub client_id : Str
  pub group_name : Str
  pub user_id : Str
  pub extend : Str

abbrev pub bind2_group_fields : Bind2Group → List Field
bind2_group_fields i = text i.client_id ∷ text i.group_name ∷ []

pub record CloseInput : Type 0 where
  pub client_id : Str

abbrev pub close_fields : CloseInput → List Field
close_fields i = text i.client_id ∷ []

-- The handler reads Code, Msg and Data too, and uses none of them.
pub record OnlineInput : Type 0 where
  pub group_name : Str

abbrev pub online_fields : OnlineInput → List Field
online_fields i = text i.group_name ∷ []

pub record StatisticsInput : Type 0 where
  pub platform : Str
  pub account : Str

abbrev pub statistics_fields : StatisticsInput → List Field
statistics_fields i = []

pub record RegisterInput : Type 0 where
  pub system_id : Str

abbrev pub register_fields : RegisterInput → List Field
register_fields i = text i.system_id ∷ []

-- GenUUID makes the message id, and panics on a text that is too short.
abbrev pub with_message_id : Result Str → (Str → Served World) → Served World
with_message_id (ok id) act = act id
with_message_id (err e) act = gives_up
with_message_id panic act = gives_up

-- SendMessage2Client as the handlers call it: the message, with its id.
unfoldable pub message : Str → Str → Str → Str → Str → Str → ClientInfo
message client user id code msg content = record {
  client_id = client;
  send_user_id = user;
  message_id = id;
  code = code;
  msg = msg;
  content = some content;
}

module _ (cipher : Cipher) where
  -- The loop of send2clients; `uuids n` is the text of the UUID for the client at place `n`.
  unfoldable pub send_each : (ℕ → Str) → ℕ → Send2Clients → List Str → World → Served World
  send_each uuids n i [] w = succeed no_items w
  send_each uuids n i (client ∷ clients) w = with_message_id (gen_uuid (uuids n)) (λ id.
      send_message2_client cipher (message client i.send_user_id id i.code i.msg i.content) w
      >=> λ v. send_each uuids (n + 1) i clients v)

-- A nil slice has no rounds.
abbrev pub elements : Option (List Str) → List Str
elements none = []
elements (some l) = l

module _ (cipher : Cipher) (validate : Validator) where
  unfoldable pub send2_client : Str → Option Send2Client → World → Served World
  send2_client uuid body w = serve send2_client_fields validate w body (λ i.
      with_message_id (gen_uuid uuid) (λ id.
        send_message2_client cipher (message i.client_id i.send_user_id id i.code i.msg i.content) w
        >=> λ v. succeed (message_id id) v))

  unfoldable pub send2_clients : (ℕ → Str) → Option Send2Clients → World → Served World
  send2_clients uuids body w =
      serve send2_clients_fields validate w body
        (λ i. send_each cipher uuids 0 i (elements i.client_ids) w)

  unfoldable pub close_handler : Str → Str → Option CloseInput → World → Served World
  close_handler system_id remote_addr body w =
      serve close_fields validate w body
        (λ i. close_client cipher i.client_id system_id remote_addr w >=> λ v. succeed no_fields v)

module _ (validate : Validator) where
  unfoldable pub send2_group : Str → Str → Option Send2Group → World → Served World
  send2_group uuid system_id body w = serve send2_group_fields validate w body (λ i.
      with_message_id (gen_uuid uuid) (λ id. succeed (message_id id) (
        send_message2_group id system_id i.send_user_id i.group_name i.code i.msg (some i.content)
          w)))

  unfoldable pub bind2_group : Str → Option Bind2Group → World → Served World
  bind2_group system_id body w = serve bind2_group_fields validate w body (λ i.
      succeed no_items
        (add_client2_group_by_id system_id i.group_name i.client_id i.user_id i.extend w))

  -- The answer waits for the list.
  abbrev pub online_answer : World → Option (ℕ × List Str) → Served World
  online_answer w none = stays w
  online_answer w (some (count, list)) = succeed (online_list count list) w

  unfoldable pub get_online_list_handler : Network → Str → Option OnlineInput → World → Served World
  get_online_list_handler net system_id body w =
      serve online_fields validate w body
        (λ i. online_answer w (get_online_list net system_id i.group_name w))

  unfoldable pub statistics_handler : Option StatisticsInput → World → Served World
  statistics_handler body w = serve statistics_fields validate w body (λ i.
      let (ids, count) = client_statistics i.platform i.account w in
      succeed (statistics ids count) w)

module _ {S : Type 0} (e : Etcd S) (marshal : AccountInfo → Str) (validate : Validator) where
  abbrev pub registered : Accounts S × Result (Unit {0}) → Served (Accounts S)
  registered (a, ok u) = succeed no_items a
  registered (a, err x) = replied a (render fail (said x) no_items)
  registered (a, panic) = gives_up

  unfoldable pub register_handler :
      Bool → ℕ → Option RegisterInput → Accounts S → Served (Accounts S)
  register_handler cluster now body a =
      serve register_fields validate a body
        (λ i. registered (register e marshal cluster now i.system_id a))
