-- ===== src/Delivery/Stream.antt =====
-- internal/deliverystream/stream.go: subjects and message identifiers of the delivery stream.
-- `sha` stands for crypto/sha256 with hexadecimal output.
use Prim.Native.String.{◌++◌ as str_append}
use snagline.Prelude.{
  ℕ, zero, suc, ◌/◌, ◌%◌, ◌^◌, String, Bool, true, false, not, ◌&&◌, ◌||◌, Option, none, some, List,
  [], ◌∷◌, ◌++◌, ◌==◌, eqb, leb, ltb, if◌then◌else◌, length, Bytes, utf8, codes, decimal,
}
use snagline.Tx.{Result, ok, err}

pub data Destination : Type 0 where
  domain edge : Destination

pub record PublishRequest : Type 0 where
  pub outbox_id : String
  pub destination : Destination
  pub tenant_id : String
  pub domain_id : String
  pub edge_id : String
  pub edge_generation : ℕ
  pub raw_ssp : Bytes
  pub fact_sequence : ℕ
  pub delivery_sequence : ℕ

pub data StreamError : Type 0 where
  tenant_required domain_required edge_required outbox_id_required : StreamError
  fact_sequence_required delivery_sequence_required : StreamError
  unexpected_sequence raw_size invalid_durable unsupported_mode : StreamError

abbrev pub max_envelope_bytes : ℕ
max_envelope_bytes = 65536

-- binary.BigEndian.PutUint64: the `n` low bytes of a number, the highest first.
unfoldable pub big_endian : ℕ → ℕ → Bytes
big_endian zero value = []
big_endian (suc n) value = (value / 256 ^ n % 256) ∷ big_endian n value

unfoldable pub length_prefixed : List Bytes → Bytes
length_prefixed [] = []
length_prefixed (value ∷ rest) = big_endian 8 (length value) ++ (value ++ length_prefixed rest)

module _ (sha : Bytes → String) where
  unfoldable pub routing_token : String → String
  routing_token opaque = sha (length_prefixed (utf8 opaque ∷ []))

  unfoldable pub edge_token : String → ℕ → String
  edge_token edge_id generation =
      sha (length_prefixed (utf8 edge_id ∷ big_endian 8 generation ∷ []))

  unfoldable pub message_id : String → String
  message_id outbox_id = str_append "outbox:" (routing_token outbox_id)

  -- strings.Join(parts, ".")
  unfoldable pub subject : String → String → String → String
  subject tenant_token kind token =
      str_append "snagline.ssp.delivery.v1."
        (str_append tenant_token (str_append "." (str_append kind (str_append "." token))))

  unfoldable pub destination_subject :
      Destination → String → String → String → ℕ → Result StreamError String
  destination_subject domain tenant_id domain_id edge_id generation =
      if tenant_id == ""
      then err tenant_required
      else if domain_id == ""
      then err domain_required
      else ok (subject (routing_token tenant_id) "domain" (routing_token domain_id))
  destination_subject edge tenant_id domain_id edge_id generation =
      if tenant_id == ""
      then err tenant_required
      else if edge_id == "" || eqb generation 0
      then err edge_required
      else ok (subject (routing_token tenant_id) "edge" (edge_token edge_id generation))

  sequence_fits : Destination → ℕ → Result StreamError (Unit {0})
  sequence_fits edge sequence = if eqb sequence 0 then err delivery_sequence_required else ok tt
  sequence_fits domain sequence = if eqb sequence 0 then ok tt else err unexpected_sequence

  -- validatePublishRequest and SubjectFor, which calls destinationSubject twice to the same effect
  unfoldable pub subject_for : PublishRequest → Result StreamError String
  unfolding sequence_fits
  subject_for r =
      if r.outbox_id == ""
      then err outbox_id_required
      else if eqb r.fact_sequence 0
      then err fact_sequence_required
      else elim (sequence_fits r.destination r.delivery_sequence) [
        | err e ↦ err e
        | ok _ ↦
            if eqb (length r.raw_ssp) 0 || ltb max_envelope_bytes (length r.raw_ssp)
            then err raw_size
            else destination_subject r.destination r.tenant_id r.domain_id r.edge_id
                r.edge_generation
      ]

-- The four headers, the data and the identifier of a message.
pub record Message : Type 0 where
  pub subject_name : String
  pub payload : Bytes
  pub outbox_header : String
  pub fact_header : List ℕ
  pub delivery_header : Option (List ℕ)
  pub generation_header : Option (List ℕ)
  pub message_key : String

module _ (sha : Bytes → String) where
  edge_header : Destination → ℕ → Option (List ℕ)
  edge_header domain value = none
  edge_header edge value = some (decimal value)

  -- The message that Publish hands to JetStream.
  unfoldable pub message_for : PublishRequest → Result StreamError Message
  unfolding edge_header
  message_for r = elim (subject_for sha r) [
    | err e ↦ err e
    | ok name ↦ ok (record {
      subject_name = name;
      payload = r.raw_ssp;
      outbox_header = r.outbox_id;
      fact_header = decimal r.fact_sequence;
      delivery_header = edge_header r.destination r.delivery_sequence;
      generation_header = edge_header r.destination r.edge_generation;
      message_key = message_id sha r.outbox_id;
    })
  ]

is_durable_char : ℕ → Bool
is_durable_char c =
    (leb b'a' c && leb c b'z')
    || (leb b'A' c && leb c b'Z')
    || (leb b'0' c && leb c b'9')
    || eqb c b'_'
    || eqb c b'-'

all_durable : List ℕ → Bool
unfolding is_durable_char
all_durable [] = true
all_durable (c ∷ cs) = is_durable_char c && all_durable cs

unfoldable pub valid_durable : String → Bool
unfolding all_durable
valid_durable durable =
    not (durable == "") && (leb (length (utf8 durable)) 64 && all_durable (codes durable))

-- Durations are counts of nanoseconds; 0 asks for the default.
pub record ConsumerRequest : Type 0 where
  pub durable : String
  pub destination : Destination
  pub tenant_id : String
  pub domain_id : String
  pub edge_id : String
  pub edge_generation : ℕ
  pub ack_wait : ℕ
  pub max_deliver : ℕ

pub record ConsumerConfig : Type 0 where
  pub name : String
  pub filter_subject : String
  pub ack_wait : ℕ
  pub max_deliver : ℕ

or_default : ℕ → ℕ → ℕ
or_default value default = if eqb value 0 then default else value

-- The configuration that EnsureConsumer hands to JetStream.
unfoldable pub consumer_config :
    (Bytes → String) → ConsumerRequest → Result StreamError ConsumerConfig
unfolding or_default
consumer_config sha r = elim (valid_durable r.durable) [
  | false ↦ err invalid_durable
  | true ↦
      (elim (destination_subject sha r.destination r.tenant_id r.domain_id r.edge_id
        r.edge_generation) [
          | err e ↦ err e
          | ok filter ↦ ok (record {
            name = r.durable;
            filter_subject = filter;
            ack_wait = or_default r.ack_wait 30000000000;
            max_deliver = or_default r.max_deliver 20;
          })
        ])
]
