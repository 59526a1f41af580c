-- ===== src/Verification.antt =====
-- Theorems on a request to the authentication server, src/Game/Services/AuthService.cpp.
use cpp_mmo.Base.{
  ◌≡◌, refl, ap, ◌∙◌, ◌⊎◌, ◌↔◌, inl, inr, Bool, true, false, Option, none, some, List, [], ◌∷◌,
  ◌==◌, ==_iff, sym, Bool-cases, length,
}
use cpp_mmo.Base.Text.{Text}
use cpp_mmo.Float.{FloatOps}
use cpp_mmo.Auth.{
  JsonOps, Parsed, parsed, parse_error, HttpResponse, Outcomes, ReadOutcome, received,
  end_of_stream, read_error, http_ok, typed_field, success_key, read_player_info, read_success,
  read_refusal, read_json, read_body, read_response, read_verdict, set_from, VerifyTicketResponse,
  on_read, on_write, on_connect, on_resolve, player_id_key, name_key, pos_x_key, pos_y_key, hp_key,
  max_hp_key, player_info_key, error_message_key, error_code_key,
}

abbrev outcomes : Option Text → Option Text → Option Text → ReadOutcome → HttpResponse → Outcomes
outcomes a b c x h = record {
  resolve_error = a;
  connect_error = b;
  write_error = c;
  read_outcome = x;
  response = h;
}

abbrev succeeds : {F : Type 0} → List (VerifyTicketResponse F) → Bool
succeeds [] = false
succeeds (r ∷ rs) = r.success

-- What holds of a response under each assignment holds after it.
success-set_from :
    {A F : Type 0} (v : Option A) (set : A → VerifyTicketResponse F → VerifyTicketResponse F)
    (r : VerifyTicketResponse F)
    → ((a : A) (r : VerifyTicketResponse F) → (set a r).success ≡ r.success)
    → (set_from v set r).success ≡ r.success
unfolding set_from
success-set_from none set r h = refl
success-set_from (some a) set r h = h a r

module _ {J F : Type 0} ⦃fl : FloatOps F⦄ (json : JsonOps J F) where
  call_once :
      (a b c : Option Text) (x : ReadOutcome) (h : HttpResponse)
      → length (on_resolve json (outcomes a b c x h)) ≡ 1
  unfolding on_resolve on_connect on_write on_read
  call_once (some what) b c x h = refl
  call_once none (some what) c x h = refl
  call_once none none (some what) x h = refl
  call_once none none none (read_error what) h = refl
  call_once none none none received h = refl
  call_once none none none end_of_stream h = refl

  -- A request calls its callback exactly once, whichever of its steps fails and whatever the server
  -- answers.
  pub length-on_resolve : (o : Outcomes) → length (on_resolve json o) ≡ 1
  length-on_resolve o =
      call_once o.resolve_error o.connect_error o.write_error o.read_outcome o.response

  -- The server said so: every step of the request went well, the status is 200, and the body is JSON
  -- whose `success` is true.
  abbrev pub IsVerified : Outcomes → Type 0
  IsVerified o =
      (o.resolve_error ≡ none)
      × (o.connect_error ≡ none)
      × (o.write_error ≡ none)
      × ((o.read_outcome ≡ received) ⊎ (o.read_outcome ≡ end_of_stream))
      × (o.response.status ≡ http_ok)
      × ((j : J) × (json.parse o.response.body ≡ parsed j)
          × (typed_field json success_key json.as_bool j ≡ some true))

  success-read_refusal : (j : J) → (read_refusal json j).success ≡ false
  unfolding read_refusal
  success-read_refusal j =
      success-set_from (typed_field json error_code_key json.as_integer j) _ _ (λ v r. refl)
      ∙ success-set_from (typed_field json error_message_key json.as_string j) _ _ (λ v r. refl)

  success-read_verdict :
      (found : Option Bool) (j : J) → (read_verdict json found j).success ≡ true → found ≡ some true
  unfolding read_verdict
  success-read_verdict none j h = cc
  success-read_verdict (some true) j h = refl
  success-read_verdict (some false) j h = let refused = success-read_refusal j in cc

  success-read_json :
      (j : J)
      → (read_json json j).success ≡ true
      → typed_field json success_key json.as_bool j ≡ some true
  unfolding read_json
  success-read_json j h = success-read_verdict _ j h

  success-read_body :
      (p : Parsed J)
      → (read_body json p).success ≡ true
      → (j : J) × (p ≡ parsed j) × (typed_field json success_key json.as_bool j ≡ some true)
  unfolding read_body
  success-read_body (parse_error what) h = cc
  success-read_body (parsed j) h = (j, refl, success-read_json j h)

  success-read_response :
      (h : HttpResponse)
      → (read_response json h).success ≡ true
      → (h.status ≡ http_ok)
        × ((j : J) × (json.parse h.body ≡ parsed j)
            × (typed_field json success_key json.as_bool j ≡ some true))
  unfolding read_response
  success-read_response h ok = elim (Bool-cases (h.status == http_ok)) [
    | inl is_ok ↦
        ((==_iff _ _).0 is_ok, success-read_body (json.parse h.body) (sym (simp is_ok refl) ∙ ok))
    | inr is_error ↦ let failed : (read_response json h).success ≡ false = simp is_error refl in cc
  ]

  verified :
      (a b c : Option Text) (x : ReadOutcome) (h : HttpResponse)
      → succeeds (on_resolve json (outcomes a b c x h)) ≡ true
      → IsVerified (outcomes a b c x h)
  unfolding on_resolve on_connect on_write on_read
  verified (some what) b c x h ok = cc
  verified none (some what) c x h ok = cc
  verified none none (some what) x h ok = cc
  verified none none none (read_error what) h ok = cc
  verified none none none received h ok =
      let (is_ok, said) = success-read_response h ok in (refl, refl, refl, inl refl, is_ok, said)
  verified none none none end_of_stream h ok =
      let (is_ok, said) = success-read_response h ok in (refl, refl, refl, inr refl, is_ok, said)

  success-read_player_info :
      (info : J) (r : VerifyTicketResponse F) → (read_player_info json info r).success ≡ r.success
  unfolding read_player_info
  success-read_player_info info r =
      success-set_from (typed_field json max_hp_key json.as_integer info) _ _ (λ v r. refl)
      ∙ success-set_from (typed_field json hp_key json.as_integer info) _ _ (λ v r. refl)
      ∙ success-set_from (typed_field json pos_y_key json.as_number info) _ _ (λ v r. refl)
      ∙ success-set_from (typed_field json pos_x_key json.as_number info) _ _ (λ v r. refl)
      ∙ success-set_from (typed_field json name_key json.as_string info) _ _ (λ v r. refl)
      ∙ success-set_from (typed_field json player_id_key json.as_unsigned info) _ _ (λ v r. refl)

  success-read_success : (j : J) → (read_success json j).success ≡ true
  unfolding read_success
  success-read_success j =
      success-set_from (typed_field json player_info_key json.as_object j) _ _
        success-read_player_info

  read_verified :
      (h : HttpResponse) (j : J)
      → h.status ≡ http_ok
      → json.parse h.body ≡ parsed j
      → typed_field json success_key json.as_bool j ≡ some true
      → (read_response json h).success ≡ true
  unfolding read_response read_body read_json read_verdict
  read_verified h j is_ok is_json said = simp (is_ok, is_json, said) (success-read_success j)

  verified_succeeds :
      (a b c : Option Text) (x : ReadOutcome) (h : HttpResponse)
      → IsVerified (outcomes a b c x h)
      → succeeds (on_resolve json (outcomes a b c x h)) ≡ true
  unfolding on_resolve on_connect on_write on_read
  verified_succeeds (some what) b c x h (bad, f, g, k, is_ok, said) = cc
  verified_succeeds none (some what) c x h (e, bad, g, k, is_ok, said) = cc
  verified_succeeds none none (some what) x h (e, f, bad, k, is_ok, said) = cc
  verified_succeeds none none none (read_error what) h (e, f, g, inl bad, is_ok, said) = cc
  verified_succeeds none none none (read_error what) h (e, f, g, inr bad, is_ok, said) = cc
  verified_succeeds none none none received h (e, f, g, k, is_ok, (j, is_json, said)) =
      read_verified h j is_ok is_json said
  verified_succeeds none none none end_of_stream h (e, f, g, k, is_ok, (j, is_json, said)) =
      read_verified h j is_ok is_json said

  -- The response reports success exactly if every step of the request went well and the server
  -- answered with status 200 and a JSON value whose `success` is true.
  pub on_resolve-IsVerified :
      (o : Outcomes) (r : VerifyTicketResponse F)
      → on_resolve json o ≡ r ∷ []
      → (r.success ≡ true) ↔ IsVerified o
  on_resolve-IsVerified o r h = (
    λ ok.
        verified o.resolve_error o.connect_error o.write_error o.read_outcome o.response
          (ap succeeds h ∙ ok),
    λ v.
        sym (ap succeeds h)
        ∙ verified_succeeds o.resolve_error o.connect_error o.write_error o.read_outcome o.response
            v,
  )
