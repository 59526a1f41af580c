-- ===== src/Auth.antt =====
-- src/Game/Services/AuthService.cpp: a request to the authentication server. Its outcomes (of the
-- resolver, the connection, the write and the read) are arguments, and so is the JSON library. The
-- literal texts of error messages stand as constructors.
use cpp_mmo.Base.{ℕ, Bool, true, false, Option, none, some, List, [], ◌∷◌, ◌==◌, if◌then◌else◌}
use cpp_mmo.Base.Int.{ℤ, pos, negsuc}
use cpp_mmo.Base.Text.{Text}
use cpp_mmo.Float.{FloatOps}

pub data ErrorText : Type 0 where
  no_text : ErrorText
  dns_failed : Text → ErrorText
  connection_failed : Text → ErrorText
  write_failed : Text → ErrorText
  read_failed : Text → ErrorText
  missing_success : ErrorText
  -- The status, its reason, and the server's own message.
  http_error : ℕ → Text → Option Text → ErrorText
  parse_failed : Text → ErrorText
  from_server : Text → ErrorText
  -- Of the login handler.
  invalid_login : ErrorText
  auth_unavailable : ErrorText

pub record VerifyTicketResponse (F : Type 0) : Type 0 where
  pub success : Bool
  pub player_id : ℕ
  pub username : Text
  pub pos_x : F
  pub pos_y : F
  pub hp : ℤ
  pub max_hp : ℤ
  pub error_message : ErrorText
  pub error_code : ℤ

-- The names of the fields that the code reads.
pub data Key : Type 0 where
  success_key player_info_key player_id_key name_key pos_x_key pos_y_key hp_key max_hp_key : Key
  error_message_key error_code_key message_key : Key

pub data Parsed (J : Type 0) : Type 0 where
  parsed : J → Parsed J
  parse_error : Text → Parsed J

-- `contains(key)` with `[key]`, and `is_…()` with `get<…>()`, which do not throw after the tests.
pub record JsonOps (J F : Type 0) : Type 0 where
  pub parse : Text → Parsed J
  pub field : Key → J → Option J
  pub as_bool : J → Option Bool
  pub as_object : J → Option J
  pub as_unsigned : J → Option ℕ
  pub as_string : J → Option Text
  pub as_number : J → Option F
  pub as_integer : J → Option ℤ

pub record HttpResponse : Type 0 where
  pub status : ℕ
  pub reason : Text
  pub body : Text

-- The error codes of the four callbacks.
pub data ReadOutcome : Type 0 where
  received : ReadOutcome
  end_of_stream : ReadOutcome
  read_error : Text → ReadOutcome

pub record Outcomes : Type 0 where
  pub resolve_error : Option Text
  pub connect_error : Option Text
  pub write_error : Option Text
  pub read_outcome : ReadOutcome
  pub response : HttpResponse

abbrev pub http_ok : ℕ
http_ok = 200

module _ {F : Type 0} ⦃fl : FloatOps F⦄ where
  -- `VerifyTicketResponse` as it is declared, with `success` false.
  abbrev pub blank : VerifyTicketResponse F
  blank = record {
    success = false;
    player_id = 0;
    username = [];
    pos_x = fl.of_nat 0;
    pos_y = fl.of_nat 0;
    hp = pos 0;
    max_hp = pos 0;
    error_message = no_text;
    error_code = pos 0;
  }

  abbrev failure : ℤ → ErrorText → VerifyTicketResponse F
  failure code text = record blank { error_message = text; error_code = code }

-- An assignment under the test for a field.
unfoldable pub set_from : {A R : Type 0} → Option A → (A → R → R) → R → R
set_from none set r = r
set_from (some v) set r = set v r

module _ {J F : Type 0} ⦃fl : FloatOps F⦄ (json : JsonOps J F) where
  -- A field with a value of the kind that the code tests for.
  abbrev pub typed_field : {A : Type 0} → Key → (J → Option A) → J → Option A
  typed_field key as_kind j = elim (json.field key j) [ none ↦ none | some v ↦ as_kind v ]

  unfoldable pub read_player_info : J → VerifyTicketResponse F → VerifyTicketResponse F
  unfolding set_from
  read_player_info info r =
      let r₁ =
        set_from (typed_field player_id_key json.as_unsigned info)
          (λ v r. record r { player_id = v }) r in
      let r₂ =
        set_from (typed_field name_key json.as_string info) (λ v r. record r { username = v }) r₁ in
      let r₃ =
        set_from (typed_field pos_x_key json.as_number info) (λ v r. record r { pos_x = v }) r₂ in
      let r₄ =
        set_from (typed_field pos_y_key json.as_number info) (λ v r. record r { pos_y = v }) r₃ in
      let r₅ = set_from (typed_field hp_key json.as_integer info) (λ v r. record r { hp = v }) r₄ in
      set_from (typed_field max_hp_key json.as_integer info) (λ v r. record r { max_hp = v }) r₅

  unfoldable pub read_success : J → VerifyTicketResponse F
  unfolding set_from read_player_info
  read_success j =
      set_from (typed_field player_info_key json.as_object j) read_player_info
        (record blank { success = true })

  unfoldable pub read_refusal : J → VerifyTicketResponse F
  unfolding set_from
  read_refusal j =
      let r =
        set_from (typed_field error_message_key json.as_string j)
          (λ v r. record r { error_message = from_server v }) blank in
      set_from (typed_field error_code_key json.as_integer j) (λ v r. record r { error_code = v }) r

  -- By the value of the field `success`.
  unfoldable pub read_verdict : Option Bool → J → VerifyTicketResponse F
  unfolding read_success read_refusal
  read_verdict none j = failure (negsuc 5) missing_success
  read_verdict (some true) j = read_success j
  read_verdict (some false) j = read_refusal j

  unfoldable pub read_json : J → VerifyTicketResponse F
  unfolding read_verdict
  read_json j = read_verdict (typed_field success_key json.as_bool j) j

  unfoldable pub read_body : Parsed J → VerifyTicketResponse F
  unfolding read_json
  read_body (parse_error what) = failure (negsuc 6) (parse_failed what)
  read_body (parsed j) = read_json j

  -- The server's message in the body of an error, if it is JSON with one.
  unfoldable error_detail : Parsed J → Option Text
  error_detail (parse_error what) = none
  error_detail (parsed j) = typed_field message_key json.as_string j

  unfoldable pub read_response : HttpResponse → VerifyTicketResponse F
  unfolding read_body error_detail
  read_response h =
      if h.status == http_ok
      then read_body (json.parse h.body)
      else failure (pos h.status) (http_error h.status h.reason (error_detail (json.parse h.body)))

  -- The responses that a callback hands to `m_callback`, those of the callbacks after it included.
  unfoldable pub on_read : Outcomes → List (VerifyTicketResponse F)
  unfolding read_response
  on_read o = elim o.read_outcome [
    | received ↦ read_response o.response ∷ []
    | end_of_stream ↦ read_response o.response ∷ []
    | read_error what ↦ failure (negsuc 4) (read_failed what) ∷ []
  ]

  unfoldable pub on_write : Outcomes → List (VerifyTicketResponse F)
  unfolding on_read
  on_write o = elim o.write_error [
    | none ↦ on_read o
    | some what ↦ failure (negsuc 3) (write_failed what) ∷ []
  ]

  unfoldable pub on_connect : Outcomes → List (VerifyTicketResponse F)
  unfolding on_write
  on_connect o = elim o.connect_error [
    | none ↦ on_write o
    | some what ↦ failure (negsuc 1) (connection_failed what) ∷ []
  ]

  unfoldable pub on_resolve : Outcomes → List (VerifyTicketResponse F)
  unfolding on_connect
  on_resolve o = elim o.resolve_error [
    | none ↦ on_connect o
    | some what ↦ failure (negsuc 0) (dns_failed what) ∷ []
  ]
