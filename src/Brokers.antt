-- ===== src/Brokers.antt =====
-- transports_broker.go: the adapters of NATS, Kafka, RabbitMQ, Redis Streams and MQTT: their configuration, what
-- they can do, the names that they use at the broker, and what they publish. The brokers' client
-- libraries are parameters: the calls that publish, and their results.
pub mod Messages
pub mod Settling
use ubi_quic_e_xtreme_zero_t.Prelude.{
  ltb, ◌==◌, if◌then◌else◌, length, teq, Text, text, brokers_required, Result, ok, ℕ, ◌-◌, ◌*◌,
  Bool, true, false, not, ◌&&◌, Option, none, some, List, [], ◌∷◌, ◌++◌,
}
use ubi_quic_e_xtreme_zero_t.Prelude.Results.{◌>>=◌, ◌>>◌, demand}
use ubi_quic_e_xtreme_zero_t.Envelope.{Envelope, Blob, encode_envelope, is_empty}
use ubi_quic_e_xtreme_zero_t.Transport.{Capabilities}
use ubi_quic_e_xtreme_zero_t.Memory.{canonical_subject}

-- The eight fields of Capabilities, in their order.
abbrev able : Bool → Bool → Bool → Bool → Bool → Bool → Bool → Bool → Capabilities
able reliable ordered durable replays both groups stream settled = record {
  reliable = reliable;
  ordered = ordered;
  durable = durable;
  replay = replays;
  bidirectional = both;
  consumer_groups = groups;
  streaming = stream;
  execution_settlement = settled;
}

abbrev pub memory_capabilities : Capabilities
memory_capabilities = able true true false false true false true true

-- `if s == "" { s = d }`
abbrev or_default : Text → Text → Text
or_default d s = if is_empty s then d else s

abbrev replaced : ℕ → Text
replaced c =
    if c == b'.'
    then text "-"
    else if c == b'*'
    then text "all"
    else if c == b'>'
    then text "all"
    else if c == b'_'
    then text "-"
    else c ∷ []

-- sanitizeName
unfoldable pub sanitize_name : Text → Text
sanitize_name [] = []
sanitize_name (c ∷ cs) = replaced c ++ sanitize_name cs

-- strings.ReplaceAll(s, ".", "/")
unfoldable pub slashes : Text → Text
slashes [] = []
slashes (c ∷ cs) = (if c == b'.' then b'/' else c) ∷ slashes cs

-- strings.TrimSuffix(s, "/")
abbrev drop_last_slash : Text → Text
drop_last_slash [] = []
drop_last_slash (c ∷ []) = if c == b'/' then [] else c ∷ []
drop_last_slash (c ∷ d ∷ ds) = c ∷ drop_last_slash (d ∷ ds)

pub record NatsConfig : Type 0 where
  pub name : Text
  pub prefix : Text
  pub jet_stream : Bool
  pub stream : Text
  pub durable_prefix : Text

unfoldable pub nats_capabilities : NatsConfig → Capabilities
nats_capabilities c =
    if c.jet_stream
    then able true false true true true true true true
    else able true false false false true false true false

-- Publish of NATS, with its three calls.
unfoldable pub publish_nats :
    NatsConfig
    → (Text → Blob → Result (Unit {0}))
    → (Text → Blob → Result (Unit {0}))
    → Result (Unit {0})
    → Envelope
    → Result (Unit {0})
unfolding encode_envelope canonical_subject
publish_nats c js_publish publish flush env = encode_envelope env >>= λ raw.
    let subject = canonical_subject c.prefix env.event in
    if c.jet_stream then js_publish subject raw else publish subject raw >> flush

-- The name of the durable consumer of a subscription, where it has one.
unfoldable pub durable_name : NatsConfig → Text → Option Text
unfolding is_empty sanitize_name
durable_name c event =
    if c.jet_stream && not (is_empty c.durable_prefix)
    then some (c.durable_prefix ++ (text "-" ++ sanitize_name event))
    else none

pub record KafkaConfig : Type 0 where
  pub name : Text
  pub brokers : List Text
  pub topic : Text
  pub group : Text

pub record KafkaMessage : Type 0 where
  pub key : Text
  pub value : Blob
  pub headers : List (Text × Text)

abbrev default_topic : Text
default_topic = text "ubiq-events"

-- NewKafkaTransport
unfoldable pub new_kafka : KafkaConfig → Result KafkaConfig
unfolding is_empty
new_kafka c =
    demand (ltb 0 (length c.brokers)) brokers_required
    >> ok (record c { topic = or_default default_topic c.topic })

abbrev kafka_capabilities : Capabilities
kafka_capabilities = able true true true true false true true true

unfoldable pub publish_kafka : (KafkaMessage → Result (Unit {0})) → Envelope → Result (Unit {0})
unfolding encode_envelope
publish_kafka write env = encode_envelope env >>= λ raw.
    write (record { key = env.event; value = raw; headers = (text "ubiq-event", env.event) ∷ [] })

unfoldable pub kafka_group : KafkaConfig → Text → Text
unfolding is_empty sanitize_name
kafka_group c event = or_default (text "ubiq-" ++ sanitize_name event) c.group

pub record RabbitConfig : Type 0 where
  pub name : Text
  pub exchange : Text
  pub queue_prefix : Text

pub record RabbitMessage : Type 0 where
  pub exchange : Text
  pub key : Text
  pub message_id : Text
  pub correlation_id : Text
  pub body : Blob

abbrev rabbit_capabilities : Capabilities
rabbit_capabilities = able true false true false true true false true

unfoldable pub publish_rabbit :
    RabbitConfig → (RabbitMessage → Result (Unit {0})) → Envelope → Result (Unit {0})
unfolding encode_envelope
publish_rabbit c send env = encode_envelope env >>= λ raw. send (record {
  exchange = c.exchange;
  key = env.event;
  message_id = env.id;
  correlation_id = env.correlation_id;
  body = raw;
})

-- The queue of a subscription, which is durable where it has a name, and the key that binds it.
unfoldable pub rabbit_queue : RabbitConfig → Text → Text
unfolding is_empty sanitize_name
rabbit_queue c event =
    if is_empty c.queue_prefix then [] else c.queue_prefix ++ (text "-" ++ sanitize_name event)

unfoldable pub binding_key : Text → Text
unfolding teq
binding_key event = if teq event (text "*") then text "#" else event

pub record RedisConfig : Type 0 where
  pub name : Text
  pub stream : Text
  pub group : Text

-- NewRedisStreamsTransport
unfoldable pub new_redis : RedisConfig → RedisConfig
unfolding is_empty
new_redis c = record c {
  stream = or_default default_topic c.stream;
  group = or_default (text "ubiq") c.group;
}

unfoldable pub publish_redis :
    RedisConfig → (Text → Text → Blob → Result (Unit {0})) → Envelope → Result (Unit {0})
unfolding encode_envelope
publish_redis c add env = encode_envelope env >>= λ raw. add c.stream env.event raw

pub record MqttConfig : Type 0 where
  pub name : Text
  pub prefix : Text

abbrev mqtt_capabilities : Capabilities
mqtt_capabilities = able true true false false true false true false

unfoldable pub publish_mqtt :
    MqttConfig → (Text → Blob → Result (Unit {0})) → Envelope → Result (Unit {0})
unfolding encode_envelope canonical_subject slashes
publish_mqtt c publish env =
    encode_envelope env >>= λ raw. publish (slashes (canonical_subject c.prefix env.event)) raw

-- The topic of a subscription.
unfoldable pub mqtt_topic : MqttConfig → Text → Text
unfolding canonical_subject slashes teq
mqtt_topic c event =
    if teq event (text "*")
    then drop_last_slash (slashes c.prefix) ++ text "/#"
    else slashes (canonical_subject c.prefix event)
