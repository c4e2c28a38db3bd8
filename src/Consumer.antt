-- ===== src/Consumer.antt =====
-- The constructor, `Init`, the destructor and `CommitOffset` of `CBinlogKafkaReader` in
-- binlogdump/CBinlogKafka.cpp. What librdkafka accepts and answers is a parameter.
use o2k.Prelude.{ℕ, Bool, true, false, not, List, [], ◌∷◌, ◌++◌, map, if◌then◌else◌, codes}
use o2k.Kafka.{ErrorCode, TopicPartition, Reader, is_no_error}

-- What `Conf::set` sets: a text, a callback object of the program's, or the defaults of topics.
pub data Setting : Type 0 where
  text : List ℕ → List ℕ → Setting
  callback : List ℕ → Setting
  topic_defaults : List (List ℕ × List ℕ) → Setting

pub record Librdkafka : Type 0 where
  -- whether `set` returns CONF_OK, in which case the object then has the setting
  pub accepts : Setting → Bool
  pub accepts_topic : List ℕ × List ℕ → Bool
  -- whether `KafkaConsumer::create` makes a consumer of the settings
  pub creates : List Setting → Bool
  pub subscribe : List (List ℕ) → ErrorCode
  pub commit_sync : ErrorCode

-- The fields of an object beside its offsets, with what its consumer was made of; m_conf and m_tconf
-- are never null.
pub record Handle : Type 0 where
  pub conf : List Setting
  pub tconf : List (List ℕ × List ℕ)
  pub consumer : Bool
  pub topics : List (List ℕ)

-- The calls of `set` whose result is not looked at.
unfoldable pub set_all : Librdkafka → List Setting → List Setting → List Setting
set_all lib [] conf = conf
set_all lib (s ∷ ss) conf = set_all lib ss (if lib.accepts s then conf ++ (s ∷ []) else conf)

abbrev pub group_id : List ℕ → Setting
group_id group = text (codes "group.id") group

abbrev pub no_auto_commit : Setting
no_auto_commit = text (codes "enable.auto.commit") (codes "false")

abbrev pub from_earliest : List ℕ × List ℕ
from_earliest = (codes "auto.offset.reset", codes "earliest")

abbrev pub settings_of : List ℕ → List Setting
settings_of server =
    no_auto_commit
    ∷ text (codes "message.max.bytes") (codes "10240000")
    ∷ text (codes "max.partition.fetch.bytes") (codes "1024000")
    ∷ text (codes "bootstrap.servers") server
    ∷ callback (codes "consume_cb")
    ∷ callback (codes "event_cb")
    ∷ []

-- How `Init` ends: it returns -1 before it makes a consumer, it calls `abort`, or it returns 0.
pub data Init : Type 0 where
  refused : Handle → Init
  aborts : Init
  subscribed : Handle → Init

unfoldable pub init : Librdkafka → List ℕ → List ℕ → List ℕ → Init
unfolding set_all
init lib server topic group =
    let tconf = if lib.accepts_topic from_earliest then from_earliest ∷ [] else [] in
    let conf = set_all lib (settings_of server) (group_id group ∷ []) in
    let conf' = set_all lib (topic_defaults tconf ∷ []) conf in
    if not (lib.accepts (group_id group))
    then refused (record { conf = []; tconf = []; consumer = false; topics = [] })
    else if not (lib.creates conf')
    then aborts
    else if not (is_no_error (lib.subscribe (topic ∷ [])))
    then aborts
    else subscribed (record { conf = conf'; tconf = tconf; consumer = true; topics = topic ∷ [] })

-- What the destructor gives back, in its order.
pub data Release : Type 0 where
  conf_object tconf_object consumer_closed consumer_object : Release
  partition : TopicPartition → Release

abbrev pub destroy : Handle → Reader → List Release
destroy h r =
    conf_object
    ∷ tconf_object
    ∷ ((if h.consumer then consumer_closed ∷ consumer_object ∷ [] else [])
        ++ (map partition r.read_offset ++ map partition r.log_offset))

-- `CommitOffset`, on a consumer that is there.
abbrev pub commit_offset : Librdkafka → ErrorCode
commit_offset lib = lib.commit_sync
