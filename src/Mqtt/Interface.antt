-- ===== src/Mqtt/Interface.antt =====
-- Messaging.Client: what the application calls, with the checks of what it hands over.
pub mod Hosts
use distributed_storage_with.Base.{
  ℕ, zero, suc, ◌+◌, ℤ, pos, negsuc, Bool, true, false, not, ◌&&◌, ◌||◌, List, [], ◌∷◌, Option,
  none, some, if◌then◌else◌, ltb, nat_eq, length, Text, codes, text_Eq, Dict, lookup,
}
use distributed_storage_with.Mqtt.Faults.{
  Result, ok, throw, type_error, invalid_type, invalid_argument, unknown_property, missing_callback,
  invalid_parameter, ◌>>=◌, ◌>>◌,
}
use distributed_storage_with.Mqtt.Utf8.{is_lead}
use distributed_storage_with.Mqtt.Message.{Message, payload_string}
use distributed_storage_with.Mqtt.Client.{ClientImpl, ConnectOptions, StoredMessage, Effect}
use distributed_storage_with.Mqtt.Client.Storing.{new_client_impl}
use distributed_storage_with.Mqtt.Client.Requests.{
  RequestOptions, connect_client, subscribe_client, unsubscribe_client, send_client,
}

-- A number of a script: a whole one, one strictly between a whole one and the next, an infinite one, or
-- NaN. How far it is from the whole one below it, no check asks.
pub data JsNumber : Type 0 where
  whole : ℤ → JsNumber
  between : ℤ → JsNumber
  infinity minus_infinity not_a_number : JsNumber

-- n < 0, which NaN is not
unfoldable pub is_below_zero : JsNumber → Bool
is_below_zero (whole (negsuc n)) = true
is_below_zero (between (negsuc n)) = true
is_below_zero minus_infinity = true
is_below_zero _ = false

-- The values that a script hands over; arrays are flat.
pub data Scalar : Type 0 where
  undefined null object function : Scalar
  boolean : Bool → Scalar
  number : JsNumber → Scalar
  string : Text → Scalar

pub data Setting : Type 0 where
  scalar : Scalar → Setting
  message : Message → Setting
  array : List Scalar → Setting

-- typeof
pub data TypeName : Type 0 where
  undefined_type object_type function_type boolean_type number_type string_type : TypeName

abbrev pub type_of_scalar : Scalar → TypeName
type_of_scalar undefined = undefined_type
type_of_scalar null = object_type
type_of_scalar object = object_type
type_of_scalar function = function_type
type_of_scalar (boolean b) = boolean_type
type_of_scalar (number n) = number_type
type_of_scalar (string s) = string_type

abbrev pub type_name : Setting → TypeName
type_name (scalar s) = type_of_scalar s
type_name _ = object_type

abbrev pub same_type : TypeName → TypeName → Bool
same_type undefined_type undefined_type = true
same_type object_type object_type = true
same_type function_type function_type = true
same_type boolean_type boolean_type = true
same_type number_type number_type = true
same_type string_type string_type = true
same_type _ _ = false

abbrev pub holds_scalar : Scalar → Bool
holds_scalar undefined = false
holds_scalar null = false
holds_scalar (boolean b) = b
holds_scalar (number (whole (pos zero))) = false
holds_scalar (number not_a_number) = false
holds_scalar (string []) = false
holds_scalar _ = true

-- Whether a value counts as true
abbrev pub holds : Setting → Bool
holds (scalar s) = holds_scalar s
holds _ = true

-- The own properties of an options object, in their order, and the names and types that it may have
abbrev pub Settings : Type 0
Settings = Dict Text Setting

abbrev pub Types : Type 0
Types = Dict Text TypeName

-- validate(obj, keys)
unfoldable pub validate : Settings → Types → Result (Unit {0})
validate [] types = ok tt
validate ((key, value) ∷ rest) types =
    let others = validate rest types in
    elim (lookup key types) [
      | none ↦ throw unknown_property
      | some type ↦ if same_type (type_name value) type then others else throw invalid_type
    ]

-- options.name, for a name of ASCII letters
abbrev pub setting : Text → Settings → Setting
setting name settings = elim (lookup name settings) [ none ↦ scalar undefined | some value ↦ value ]

abbrev pub check : Bool → Result (Unit {0}) → Result (Unit {0})
check true failure = ok tt
check false failure = failure

-- How many characters a client's name has: the unit behind a lead surrogate is skipped.
unfoldable pub count_units : Bool → Text → ℕ
count_units skip [] = 0
count_units skip (c ∷ s) =
    let rest = count_units (not skip && is_lead c) s in if skip then rest else rest + 1

unfoldable pub count_characters : Text → ℕ
unfolding count_units
count_characters s = count_units false s

-- A client with that port; `none` is one whose port is not a natural number, which is not followed.
abbrev pub client_at : Text → JsNumber → Text → Dict Text StoredMessage → Option (Effect (Unit {0}))
client_at host (whole (pos port)) client_id local_storage =
    some (new_client_impl host port client_id local_storage)
client_at host _ client_id local_storage = none

-- The check of clientId, whose length is asked for before its type
abbrev pub check_client_id : Scalar → Result Text
unfolding count_characters
check_client_id (string client_id) =
    let count = count_characters client_id in
    if ltb count 1 || ltb 23 count then throw invalid_argument else ok client_id
check_client_id undefined = throw type_error
check_client_id null = throw type_error
check_client_id _ = throw invalid_argument

-- new Client(host, port, clientId)
unfoldable pub new_public_client :
    Scalar → Scalar → Scalar → Dict Text StoredMessage → Result (Option (Effect (Unit {0})))
unfolding is_below_zero
new_public_client (string host) (number port) client_id local_storage =
    check (not (is_below_zero port)) (throw invalid_type)
    >> (check_client_id client_id >>= λ name. ok (client_at host port name local_storage))
new_public_client _ port client_id local_storage = throw invalid_type

-- The setters of the application's functions
unfoldable pub set_on_connection_lost : Scalar → ClientImpl → Effect (Unit {0})
set_on_connection_lost function c = (ok tt, record c { on_connection_lost = true })
set_on_connection_lost _ c = (throw invalid_type, c)

unfoldable pub set_on_message_delivered : Scalar → ClientImpl → Effect (Unit {0})
set_on_message_delivered function c = (ok tt, record c { on_message_delivered = true })
set_on_message_delivered _ c = (throw invalid_type, c)

unfoldable pub set_on_message_arrived : Scalar → ClientImpl → Effect (Unit {0})
set_on_message_arrived function c = (ok tt, record c { on_message_arrived = true })
set_on_message_arrived _ c = (throw invalid_type, c)

-- A call of ClientImpl behind its checks
abbrev pub guarded :
    Result (Unit {0}) → (ClientImpl → Effect (Unit {0})) → ClientImpl → Effect (Unit {0})
guarded (throw e) call c = (throw e, c)
guarded (ok _) call c = call c

abbrev pub request_types : Types
request_types =
    (codes "invocationContext", object_type)
    ∷ (codes "onSuccess", function_type)
    ∷ (codes "onFailure", function_type)
    ∷ (codes "timeout", number_type)
    ∷ []

-- A timeout needs a function to call.
abbrev pub check_timeout : Settings → Result (Unit {0})
check_timeout s =
    check (not (holds (setting (codes "timeout") s)) || holds (setting (codes "onFailure") s))
      (throw missing_callback)

abbrev pub quality : Setting → Bool
quality (scalar undefined) = true
quality (scalar (number (whole (pos n)))) = ltb n 3
quality _ = false

abbrev pub quality_of : Setting → Option ℕ
quality_of (scalar (number (whole (pos n)))) = some n
quality_of _ = none

-- Of a timeout only counts whether there is one: zero and NaN are none.
abbrev pub timeout_of : Setting → ℕ
timeout_of (scalar (number (whole (pos n)))) = n
timeout_of (scalar (number not_a_number)) = 0
timeout_of (scalar (number _)) = 1
timeout_of _ = 0

unfoldable pub request_options : Settings → RequestOptions
request_options s = record {
  qos = quality_of (setting (codes "qos") s);
  timeout = timeout_of (setting (codes "timeout") s);
  on_success = holds (setting (codes "onSuccess") s);
}

unfoldable pub check_subscribe : Settings → Result (Unit {0})
unfolding validate
check_subscribe s =
    validate s ((codes "qos", number_type) ∷ request_types)
    >> check_timeout s
    >> check (quality (setting (codes "qos") s)) (throw invalid_argument)

unfoldable pub check_unsubscribe : Settings → Result (Unit {0})
unfolding validate
check_unsubscribe s = validate s request_types >> check_timeout s

-- subscribe, unsubscribe and send; missing options are an empty object.
unfoldable pub subscribe_public : Scalar → Settings → ClientImpl → Effect (Unit {0})
unfolding check_subscribe request_options
subscribe_public (string filter) s c =
    guarded (check_subscribe s) (subscribe_client filter (request_options s)) c
subscribe_public _ s c = (throw invalid_parameter, c)

unfoldable pub unsubscribe_public : Scalar → Settings → ClientImpl → Effect (Unit {0})
unfolding check_unsubscribe request_options
unsubscribe_public (string filter) s c =
    guarded (check_unsubscribe s) (unsubscribe_client filter (request_options s)) c
unsubscribe_public _ s c = (throw invalid_parameter, c)

unfoldable pub send_public : Setting → ClientImpl → Effect (Unit {0})
send_public (message m) c = elim m.destination_name [
  | none ↦ (throw invalid_parameter, c)
  | some name ↦ send_client m c
]
send_public _ c = (throw invalid_parameter, c)

abbrev pub connect_types : Types
connect_types =
    (codes "timeout", number_type)
    ∷ (codes "userName", string_type)
    ∷ (codes "password", string_type)
    ∷ (codes "willMessage", object_type)
    ∷ (codes "keepAliveInterval", number_type)
    ∷ (codes "cleanSession", boolean_type)
    ∷ (codes "useSSL", boolean_type)
    ∷ (codes "invocationContext", object_type)
    ∷ (codes "onSuccess", function_type)
    ∷ (codes "onFailure", function_type)
    ∷ (codes "hosts", object_type)
    ∷ (codes "ports", object_type)
    ∷ []

-- The property `stringPayload` that is read of a will does not exist, so nothing comes of its payload.
abbrev pub check_will : Setting → Result (Unit {0})
check_will (message m) = elim m.destination_name [ none ↦ throw invalid_type | some name ↦ ok tt ]
check_will value = check (not (holds value)) (throw invalid_type)

-- The loop over hosts and ports, which are as many
unfoldable pub check_each : List Scalar → List Scalar → Result (Unit {0})
unfolding is_below_zero
check_each [] ports = ok tt
check_each (string host ∷ hosts) (number port ∷ ports) =
    let others = check_each hosts ports in if is_below_zero port then throw invalid_type else others
check_each (host ∷ hosts) ports = throw invalid_type

abbrev pub check_hosts : Setting → Setting → Result (Unit {0})
check_hosts (array hosts) (array ports) =
    check (not (nat_eq (length hosts) 0)) (throw invalid_argument)
    >> check (nat_eq (length hosts) (length ports)) (throw invalid_argument)
    >> check_each hosts ports
check_hosts hosts ports = check (not (holds hosts)) (throw invalid_argument)

unfoldable pub check_connect : Settings → Result (Unit {0})
unfolding validate check_each
check_connect s =
    validate s connect_types
    >> check_will (setting (codes "willMessage") s)
    >> check_hosts (setting (codes "hosts") s) (setting (codes "ports") s)

-- connect, where `options` are what the settings come to: without an interval 60 seconds, and without a
-- choice a clean session
unfoldable pub connect_public : Settings → ConnectOptions → ClientImpl → Effect (Unit {0})
unfolding check_connect
connect_public s options c = guarded (check_connect s) (connect_client options) c
