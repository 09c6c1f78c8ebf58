-- ===== src/Service/Messages.antt =====
-- messageFromDescriptor of service/service.go, over the messages of proto/service.proto, and the type
-- assertions of Add and Get on what a forwarded request brings back.
use raft_example.Prelude.{
  ℕ, ◌≡◌, refl, Bool, true, false, Option, none, some, List, [], ◌∷◌, Bytes, bytes_of, same,
  if◌then◌else◌, ◌==◌, arith, ==_refl, ◌∙◌,
}

-- The descriptors of the messages.
pub data Descriptor : Type 0 where
  add_request : Descriptor
  add_response : Descriptor
  get_request : Descriptor
  get_response : Descriptor
  stat_request : Descriptor
  stat_response : Descriptor
  watch_request : Descriptor
  watch_response : Descriptor

abbrev number : Descriptor → ℕ
number add_request = 0
number add_response = 1
number get_request = 2
number get_response = 3
number stat_request = 4
number stat_response = 5
number watch_request = 6
number watch_response = 7

-- The messages with their fields, in the order of their numbers.
pub data Message : Type 0 where
  add_request_of : Bytes → Bytes → Message
  add_response_of : ℕ → Message
  get_request_of : Bytes → Bool → Message
  get_response_of : ℕ → Bytes → Message
  stat_request_of : Message
  stat_response_of : Bytes → Message
  watch_request_of : Bytes → ℕ → ℕ → Message
  watch_response_of : Bytes → ℕ → Bool → Message

-- `ProtoReflect().Descriptor()`
abbrev pub descriptor : Message → Descriptor
descriptor (add_request_of key val) = add_request
descriptor (add_response_of commit_index) = add_response
descriptor (get_request_of key linearizable) = get_request
descriptor (get_response_of read_at_index value) = get_response
descriptor stat_request_of = stat_request
descriptor (stat_response_of stats) = stat_response
descriptor (watch_request_of key min_index timeout_seconds) = watch_request
descriptor (watch_response_of value current_index abandoned) = watch_response

-- A composite literal with no fields, and `ProtoReflect().New()` of any message of the type.
abbrev pub empty : Descriptor → Message
empty add_request = add_request_of [] []
empty add_response = add_response_of 0
empty get_request = get_request_of [] false
empty get_response = get_response_of 0 []
empty stat_request = stat_request_of
empty stat_response = stat_response_of []
empty watch_request = watch_request_of [] 0 0
empty watch_response = watch_response_of [] 0 false

abbrev pub proto_types : List Message
proto_types =
    empty add_request
    ∷ empty add_response
    ∷ empty get_request
    ∷ empty get_response
    ∷ empty watch_request
    ∷ empty watch_response
    ∷ []

find_message : Descriptor → List Message → Option Message
find_message d [] = none
find_message d (m ∷ ms) =
    let rest = find_message d ms in
    if number (descriptor m) == number d then some (empty (descriptor m)) else rest

-- `none` is the panic.
unfoldable pub message_from_descriptor : Descriptor → Option Message
unfolding find_message
message_from_descriptor d = find_message d proto_types

-- What a forwarded request comes to when the leader's connection is there: a panic, an error for a
-- method that the service does not have, an error of `Invoke`, or the response.
pub data Call : Type 0 where
  panicked : Call
  unknown_command : Call
  invoke_failed : Call
  replied : Message → Call

-- The requests that are forwarded, by the name of their method.
pub data Request : Type 0 where
  add : Request
  get : Request

abbrev pub method_of : Request → Bytes
method_of add = bytes_of "Add"
method_of get = bytes_of "Get"

-- The types in `resp.(*pb.AddResponse)` and `resp.(*pb.GetResponse)`.
abbrev pub response_of : Request → Descriptor
response_of add = add_response
response_of get = get_response

-- The methods of the service with their outputs.
abbrev pub methods : List (Bytes × Descriptor)
methods =
    (bytes_of "Add", add_response)
    ∷ (bytes_of "Get", get_response)
    ∷ (bytes_of "Stat", stat_response)
    ∷ (bytes_of "Watch", watch_response)
    ∷ []

abbrev output_in : Bytes → List (Bytes × Descriptor) → Option Descriptor
output_in method [] = none
output_in method ((m, d) ∷ ms) =
    let rest = output_in method ms in if same m method then some d else rest

-- `unmarshal` fills a message with the fields of some bytes, and `wire` is what comes back over the
-- connection.
module _ (unmarshal : Bytes → Message → Message) (wire : Option Bytes) where
  on_wire : Option Bytes → Message → Call
  on_wire none resp = invoke_failed
  on_wire (some b) resp = replied (unmarshal b resp)

  on_message : Option Message → Call
  unfolding on_wire
  on_message none = panicked
  on_message (some resp) = on_wire wire resp

  on_output : Option Descriptor → Call
  unfolding on_message message_from_descriptor
  on_output none = unknown_command
  on_output (some d) = on_message (message_from_descriptor d)

  -- The look-up and the end of forwardRequestToLeader, for a method of the service.
  unfoldable pub invoke : Bytes → Call
  unfolding on_output
  invoke method = on_output (output_in method methods)

  asserted : Bool → Message → Call
  asserted true m = replied m
  asserted false m = panicked

  assert_response : Request → Call → Call
  unfolding asserted
  assert_response r panicked = panicked
  assert_response r unknown_command = unknown_command
  assert_response r invoke_failed = invoke_failed
  assert_response r (replied m) = asserted (number (descriptor m) == number (response_of r)) m

  -- A request that is forwarded to a leader whose connection is there.
  unfoldable pub forwarded : Request → Call
  unfolding invoke assert_response
  forwarded r = assert_response r (invoke (method_of r))

-- A message of that type, or an error of the connection; no panic.
abbrev pub IsTyped : Descriptor → Call → Type 0
IsTyped d panicked = ⊥
IsTyped d unknown_command = ⊥
IsTyped d invoke_failed = Unit
IsTyped d (replied m) = descriptor m ≡ d

-- A message that is filled over the connection keeps its type, so an assertion of the type that it was
-- made with holds.
module _ (unmarshal : Bytes → Message → Message)
    (keeps_type : (b : Bytes) (m : Message) → descriptor (unmarshal b m) ≡ descriptor m) where
  asserted-IsTyped :
      (wire : Option Bytes) (r : Request) (d : Descriptor) (b : Bytes) (resp : Message)
      → descriptor resp ≡ response_of r
      → response_of r ≡ d
      → IsTyped d (assert_response unmarshal wire r (replied (unmarshal b resp)))
  unfolding assert_response asserted
  asserted-IsTyped wire r d b resp e f =
      let typed : descriptor (unmarshal b resp) ≡ response_of r = keeps_type b resp ∙ e in
      rw (typed, ==_refl (number (response_of r))) (typed ∙ f)

  -- Let unmarshalling keep the type of a message. An Add and a Get that are forwarded over a
  -- connection do not panic: messageFromDescriptor knows the type of their response, and what comes
  -- back passes the type assertion and has the type that the service declares for the method; or
  -- `Invoke` fails.
  pub forwarded-IsTyped :
      (wire : Option Bytes) (r : Request) (d : Descriptor)
      → output_in (method_of r) methods ≡ some d
      → IsTyped d (forwarded unmarshal wire r)
  unfolding forwarded invoke on_output message_from_descriptor find_message on_message on_wire
      assert_response
  forwarded-IsTyped none add d e = tt
  forwarded-IsTyped none get d e = tt
  forwarded-IsTyped (some b) add d e =
      asserted-IsTyped (some b) add d b (empty add_response) refl (ground arith)
  forwarded-IsTyped (some b) get d e =
      asserted-IsTyped (some b) get d b (empty get_response) refl (ground arith)
