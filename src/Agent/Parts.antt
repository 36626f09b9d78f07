-- ===== src/Agent/Parts.antt =====
-- New of agent/agent.go: the parts of a node by its configuration. A part that the configuration
-- does not know stays nil, and New returns no error.
use orchy.Base.{
  Text, text_eq, text_beq_iff, lit, Bool, true, false, not, if◌then◌else◌, ◌==◌, Outcome, returned,
  panicked, ◌≡◌, ◌≢◌, refl, arith, ◌↔◌,
}
use orchy.Model.{Result, ok, err, Result-cases}
use orchy.Agent.{DataCollectorConfig, Config}

-- Which parts are there, and not nil.
pub record Parts : Type 0 where
  pub data_collector : Bool
  pub metadata_storage : Bool
  -- Of each shard, and of the encoder that the storages of the shards share.
  pub shard_storage : Bool
  pub shard_queue : Bool
  pub flow_ctx_encoder : Bool

-- What the set-up calls outside the repository.
pub record Setup : Type 0 where
  -- os.OpenFile of the log file.
  pub open_log : Text → Result (Unit {0})
  -- NewMemberShip: the address is resolved, serf is created, and joins the other nodes.
  pub new_membership : Config → Result (Unit {0})
  -- view.Register in NewGrpcServer.
  pub register_views : Result (Unit {0})

-- All parts that the services use are there.
pub record IsComplete (p : Parts) : Type 0 where
  pub data_collector : p.data_collector ≡ true
  pub metadata_storage : p.metadata_storage ≡ true
  pub shard_storage : p.shard_storage ≡ true
  pub shard_queue : p.shard_queue ≡ true
  pub flow_ctx_encoder : p.flow_ctx_encoder ≡ true

pub record IsSupported (c : Config) : Type 0 where
  pub storage : c.storage_type ≡ lit "redis"
  pub queue : c.queue_type ≡ lit "redis"
  pub encoder : c.encoder_decoder_type ≢ lit "PROTO"
  pub analytics : c.analytics_config.collector_type ≡ lit "LOG_FILE_DATA_COLLECTOR"

module _ (s : Setup) where
  -- InitDataCollector of analytics/analytics.go: whether there is a collector then.
  unfoldable pub init_data_collector : DataCollectorConfig → Result Bool
  init_data_collector c =
      let opened = s.open_log c.file_name in
      if c.collector_type == lit "LOG_FILE_DATA_COLLECTOR"
      then elim opened [ err e ↦ err e | ok u ↦ ok true ]
      else ok false

  -- setupMetadataService: whether there is a storage of the metadata.
  unfoldable pub setup_metadata_service : Config → Bool
  setup_metadata_service c = c.storage_type == lit "redis"

  -- The parts that NewCluster chooses for each shard, beside those that are there already.
  unfoldable pub chosen_parts : Config → Bool → Parts
  chosen_parts c collector = record {
    data_collector = collector;
    metadata_storage = setup_metadata_service c;
    shard_storage = c.storage_type == lit "redis";
    shard_queue = c.queue_type == lit "redis";
    flow_ctx_encoder = not (c.encoder_decoder_type == lit "PROTO");
  }

  abbrev grpc_server : Result (Unit {0}) → Parts → Outcome (Result Parts)
  grpc_server (err e) parts = returned (err e)
  grpc_server (ok u) parts = returned (ok parts)

  -- NewCluster panics when the membership cannot be set up.
  abbrev cluster : Result (Unit {0}) → Parts → Outcome (Result Parts)
  cluster (err e) parts = panicked
  cluster (ok u) parts = grpc_server s.register_views parts

  abbrev collected : Config → Result Bool → Outcome (Result Parts)
  collected c (err e) = returned (err e)
  collected c (ok collector) = cluster (s.new_membership c) (chosen_parts c collector)

  -- New: the first error ends it.
  unfoldable pub new_agent : Config → Outcome (Result Parts)
  new_agent c = collected c (init_data_collector c.analytics_config)

  collector_lem :
      (c : DataCollectorConfig) (b : Bool)
      → init_data_collector c ≡ ok b
      → b ≡ (c.collector_type == lit "LOG_FILE_DATA_COLLECTOR")
  unfolding init_data_collector
  collector_lem c b h = ground (arith, Result-cases (s.open_log c.file_name))

  chosen_lem :
      (c : Config) (p : Parts)
      → p ≡ chosen_parts c (c.analytics_config.collector_type == lit "LOG_FILE_DATA_COLLECTOR")
      → IsComplete p ↔ IsSupported c
  unfolding chosen_parts setup_metadata_service
  chosen_lem c p h =
      let kind = text_beq_iff c.analytics_config.collector_type (lit "LOG_FILE_DATA_COLLECTOR") in
      let storage = text_beq_iff c.storage_type (lit "redis") in
      let queue = text_beq_iff c.queue_type (lit "redis") in
      let encoder = text_beq_iff c.encoder_decoder_type (lit "PROTO") in
      rw h (
        (λ complete. record {
          storage = storage.0 complete.metadata_storage;
          queue = queue.0 complete.shard_queue;
          encoder = λ e. cc (complete.flow_ctx_encoder, encoder.1 e);
          analytics = kind.0 complete.data_collector;
        }),
        (λ supported. record {
          data_collector = kind.1 supported.analytics;
          metadata_storage = storage.1 supported.storage;
          shard_storage = storage.1 supported.storage;
          shard_queue = queue.1 supported.queue;
          flow_ctx_encoder = ground (arith, encoder, supported.encoder);
        }),
      )

  registered :
      (r : Result (Unit {0})) (parts p : Parts) → grpc_server r parts ≡ returned (ok p) → p ≡ parts
  registered (err e) parts p h = cc
  registered (ok u) parts p h = cc

  joined : (r : Result (Unit {0})) (parts p : Parts) → cluster r parts ≡ returned (ok p) → p ≡ parts
  joined (err e) parts p h = cc
  joined (ok u) parts p h = registered s.register_views parts p h

  collected-eq :
      (c : Config) (p : Parts) (r : Result Bool)
      → init_data_collector c.analytics_config ≡ r
      → collected c r ≡ returned (ok p)
      → p ≡ chosen_parts c (c.analytics_config.collector_type == lit "LOG_FILE_DATA_COLLECTOR")
  collected-eq c p (err e) made h = cc
  collected-eq c p (ok b) made h =
      rw (← collector_lem c.analytics_config b made)
        (joined (s.new_membership c) (chosen_parts c b) p h)

  new_agent-eq :
      (c : Config) (p : Parts)
      → new_agent c ≡ returned (ok p)
      → p ≡ chosen_parts c (c.analytics_config.collector_type == lit "LOG_FILE_DATA_COLLECTOR")
  unfolding new_agent
  new_agent-eq c p h = collected-eq c p (init_data_collector c.analytics_config) refl h

  -- A node that New returns has every part that its services use exactly if the storage and the
  -- queue are `redis`, the encoder is not `PROTO` and the collector writes the log file: of any
  -- other configuration some part is nil, although New returned no error.
  pub new_agent-IsComplete :
      (c : Config) (p : Parts) → new_agent c ≡ returned (ok p) → IsComplete p ↔ IsSupported c
  new_agent-IsComplete c p h = chosen_lem c p (new_agent-eq c p h)
