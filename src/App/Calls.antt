-- ===== src/App/Calls.antt =====
-- What a call of a tool sends and answers, for src/pinterest_mcp/app.py and
-- src/pinterest_mcp/tools.py.
use pinterest_mcp_docker.Common.{
  String, Bool, true, false, ◌≡◌, inl, inr, refl, ap, ◌∙◌, none, some, List, [], ◌∷◌, ◌<>◌,
  string_eq, Option-cases,
}
use pinterest_mcp_docker.Persistence.Json.{Json, arr, Fields}
use pinterest_mcp_docker.Client.Requests.{
  Exception, security_error, other, Outcome, returned, raised, get, Request, Env, State, Act,
}
use pinterest_mcp_docker.Client.Requests.Sends.{Sends, request-Sends, items-Sends, nothing_sent}
use pinterest_mcp_docker.Client.Pins.{Host, PinArgs, PinItem, media_source, create_all, pin_of}
use pinterest_mcp_docker.Client.Pins
use pinterest_mcp_docker.Client.Requests
use pinterest_mcp_docker.Tools.{
  Tool, create_pin, update_pin, delete_pin, get_pin_analytics, list_boards, create_board,
  get_board_pins, search_pins, get_account_analytics, bulk_create_pins, get_trending, Input,
  tool_named, spec,
}
use pinterest_mcp_docker.App.{
  sanitize_error, handler, Runtime, model_of, answer_of, call_spec, call_model, call_tool,
}

abbrev pub IsGet : Request → Type 0
IsGet r = r.method ≡ get

handler-reads :
    (E : Env) (H : Host) (t : Tool) (i : Input t) (s : State)
    → (spec t).read_only ≡ true
    → Sends IsGet s (handler E H t i s).1
unfolding spec handler
handler-reads E H create_pin i s h = absurd (cc h)
handler-reads E H update_pin i s h = absurd (cc h)
handler-reads E H delete_pin i s h = absurd (cc h)
handler-reads E H get_pin_analytics i s h = request-Sends IsGet E _ s refl
handler-reads E H list_boards i s h = items-Sends IsGet s _ (request-Sends IsGet E _ s refl)
handler-reads E H create_board i s h = absurd (cc h)
handler-reads E H get_board_pins i s h = items-Sends IsGet s _ (request-Sends IsGet E _ s refl)
handler-reads E H search_pins i s h = items-Sends IsGet s _ (request-Sends IsGet E _ s refl)
handler-reads E H get_account_analytics i s h = request-Sends IsGet E _ s refl
handler-reads E H bulk_create_pins i s h = absurd (cc h)
handler-reads E H get_trending i s h = request-Sends IsGet E _ s refl

answer-state : (r : Outcome Json × State) → (answer_of r).1 ≡ some r.1
answer-state (returned j, s) = refl
answer-state (raised e, s) = refl

-- A call with arguments that the model of its tool refuses, and with ones that it takes.
module _ (R : Runtime) (E : Env) (H : Host) (name : String) (arguments : Fields) (s : State)
    (t : Tool) (named : tool_named name ≡ some t) where
  abbrev refusal : Json
  refusal = sanitize_error (security_error ("Invalid arguments for tool " <> R.repr name))

  call-invalid :
      model_of R t arguments ≡ none
      → call_tool R E H name arguments (some s) ≡ (returned refusal, some s)
  unfolding call_tool
  call-invalid invalid =
      ap (call_spec R E H name arguments (some s)) named
      ∙ ap (call_model R E H name t (some s)) invalid

  pub call-valid :
      (input : Input t)
      → model_of R t arguments ≡ some input
      → call_tool R E H name arguments (some s) ≡ answer_of (handler E H t input s)
  unfolding call_tool
  call-valid input valid =
      ap (call_spec R E H name arguments (some s)) named
      ∙ ap (call_model R E H name t (some s)) valid

-- A call of a tool that the registry marks as read-only sends nothing but GET requests to the API and,
-- to the token endpoint, renewals of its token, whatever its arguments, the answers and the clock
-- are.
pub call_tool-read_only :
    (R : Runtime) (E : Env) (H : Host) (name : String) (arguments : Fields) (s : State) (t : Tool)
    → tool_named name ≡ some t
    → (spec t).read_only ≡ true
    → (s' : State) × ((call_tool R E H name arguments (some s)).1 ≡ some s') × Sends IsGet s s'
call_tool-read_only R E H name arguments s t named reads =
    elim (Option-cases (model_of R t arguments)) [
      | inl invalid ↦ (
        s,
        ap (λ r. r.1) (call-invalid R E H name arguments s t named invalid),
        nothing_sent IsGet s s refl,
      )
      | inr (input, valid) ↦ (
        (handler E H t input s).1,
        ap (λ r. r.1) (call-valid R E H name arguments s t named input valid)
            ∙ answer-state (handler E H t input s),
        handler-reads E H t input s reads,
      )
    ]

-- `dry_run` of the arguments.
abbrev pub is_dry : (t : Tool) → Input t → Bool
is_dry create_pin i = i.dry_run
is_dry bulk_create_pins i = i.dry_run
is_dry _ i = false

lift-same :
    {A B : Type 0} (o : Outcome A) (f : A → Outcome B) (s : State)
    → (Requests.continue (o, s) (λ a t. (f a, t))).1 ≡ s
lift-same (returned a) f s = refl
lift-same (raised e) f s = refl

create_pin-dry :
    (E : Env) (H : Host) (args : PinArgs) (s : State) → (Pins.create_pin E H args true s).1 ≡ s
unfolding Pins.create_pin
create_pin-dry E H args s =
    lift-same (media_source H args.image_url args.image_path)
      (λ media. returned (Pins.validated args)) s

bind-same :
    {A B : Type 0} (r : Outcome A × State) (f : A → Act B) (s : State)
    → r.1 ≡ s
    → ((a : A) → (f a s).1 ≡ s)
    → (Requests.continue r f).1 ≡ s
bind-same (returned a, t) f s same each = ap (λ u. (f a u).1) same ∙ each a
bind-same (raised e, t) f s same each = same

create_all-dry :
    (E : Env) (H : Host) (board_id : String) (pins : List PinItem) (s : State)
    → (create_all E H board_id pins true s).1 ≡ s
unfolding create_all
create_all-dry E H board_id [] s = refl
create_all-dry E H board_id (pin ∷ pins) s =
    bind-same (Pins.create_pin E H (pin_of board_id pin) true s) _ s
      (create_pin-dry E H (pin_of board_id pin) s)
      (λ result.
        bind-same (create_all E H board_id pins true s) _ s (create_all-dry E H board_id pins s)
          (λ results. refl))

handler-dry :
    (E : Env) (H : Host) (t : Tool) (i : Input t) (s : State)
    → is_dry t i ≡ true
    → (handler E H t i s).1 ≡ s
unfolding handler
handler-dry E H create_pin i s h =
    ap (λ (dry : Bool). (Pins.create_pin E H i.pin dry s).1) h ∙ create_pin-dry E H i.pin s
handler-dry E H bulk_create_pins i s h =
    ap (λ (dry : Bool). (Pins.bulk_create_pins E H i.board_id i.pins dry s).1) h
    ∙ (unfold Pins.bulk_create_pins in
        bind-same (create_all E H i.board_id i.pins true s) (λ results. Requests.pure (arr results))
          s (create_all-dry E H i.board_id i.pins s) (λ results. refl))
handler-dry E H update_pin i s h = absurd (cc h)
handler-dry E H delete_pin i s h = absurd (cc h)
handler-dry E H get_pin_analytics i s h = absurd (cc h)
handler-dry E H list_boards i s h = absurd (cc h)
handler-dry E H create_board i s h = absurd (cc h)
handler-dry E H get_board_pins i s h = absurd (cc h)
handler-dry E H search_pins i s h = absurd (cc h)
handler-dry E H get_account_analytics i s h = absurd (cc h)
handler-dry E H get_trending i s h = absurd (cc h)

-- A dry run, of one pin or of many, leaves the client as it is: it sends nothing, renews no token
-- and counts no pin.
pub call_tool-dry_run :
    (R : Runtime) (E : Env) (H : Host) (name : String) (arguments : Fields) (s : State) (t : Tool)
    (input : Input t)
    → tool_named name ≡ some t
    → model_of R t arguments ≡ some input
    → is_dry t input ≡ true
    → (call_tool R E H name arguments (some s)).1 ≡ some s
call_tool-dry_run R E H name arguments s t input named valid dry =
    ap (λ r. r.1) (call-valid R E H name arguments s t named input valid)
    ∙ answer-state (handler E H t input s)
    ∙ ap some (handler-dry E H t input s dry)
