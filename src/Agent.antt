-- ===== src/Agent.antt =====
-- main.go, config/Config.go and agent/agent.go: from the flags to the parts of a node.
-- Viper, net and the log file are outside the repository.
pub mod Parts
use orchy.Base.{
  nat_beq, ℤ, pos, Text, text_eq, lit, Bool, true, false, if◌then◌else◌, List, [], ◌∷◌, ◌++◌, ◌==◌,
}
use orchy.Base.Map.{Map}
use orchy.Base.Strconv.{itoa}
use orchy.Model.{Error, Result, ok, err, ◌>>=◌, ◌>>◌}

-- analytics.DataCollectorConfig
pub record DataCollectorConfig : Type 0 where
  pub file_name : Text
  pub collector_type : Text

-- config.ClusterConfig
pub record ClusterConfig : Type 0 where
  pub node_name : Text
  pub bind_addr : Text
  pub cluster_tags : Map Text Text
  pub start_join_addrs : List Text
  pub partition_count : ℤ

-- config.RedisStorageConfig
pub record RedisStorageConfig : Type 0 where
  pub addrs : List Text
  pub namespace : Text
  pub password : Text

-- config.Config, without the four structs that nothing reads.
pub record Config : Type 0 where
  pub redis_config : RedisStorageConfig
  pub http_port : ℤ
  pub grpc_port : ℤ
  pub storage_type : Text
  pub queue_type : Text
  pub encoder_decoder_type : Text
  pub cluster_config : ClusterConfig
  pub batch_size : ℤ
  pub analytics_config : DataCollectorConfig

-- RPCAddr; net.SplitHostPort is a parameter.
unfoldable pub rpc_addr_of : (Text → Result (Text × Text)) → Text → ℤ → Result Text
unfolding itoa
rpc_addr_of split_host_port bind_addr grpc_port = do
  host ← split_host_port bind_addr
  ok (host.0 ++ (lit ":" ++ itoa grpc_port))

-- What viper.ReadInConfig comes to.
pub data ConfigFile : Type 0 where
  read not_found : ConfigFile
  unreadable : Error → ConfigFile

-- Viper, after the configuration file was named and read.
pub record Viper : Type 0 where
  pub config_file : ConfigFile
  pub get_string : Text → Text
  pub get_int : Text → ℤ
  pub get_string_slice : Text → List Text

abbrev config_file_read : ConfigFile → Result (Unit {0})
config_file_read read = ok tt
config_file_read not_found = ok tt
config_file_read (unreadable e) = err e

-- The switch on the analytics output: any other output leaves the configuration empty.
unfoldable pub analytics_of : Text → DataCollectorConfig
analytics_of out =
    if out == lit "LOG_FILE"
    then record { collector_type = lit "LOG_FILE_DATA_COLLECTOR"; file_name = lit "analytics.log" }
    else record { collector_type = []; file_name = [] }

-- strings.Split(s, ","), on the part that is read so far.
unfoldable pub split_commas : Text → Text → List Text
split_commas part [] = part ∷ []
split_commas part (c ∷ s) =
    let rest = split_commas [] s in
    let more = split_commas (part ++ (c ∷ [])) s in if nat_beq c b',' then part ∷ rest else more

-- setupConfig
unfoldable pub setup_config : (Text → Result (Text × Text)) → Viper → Result Config
unfolding rpc_addr_of split_commas analytics_of
setup_config split_host_port v = do
  config_file_read v.config_file
  rpc_addr ←
      rpc_addr_of split_host_port (v.get_string (lit "bind-address")) (v.get_int (lit "grpc-port"))
  ok (record {
    redis_config = record {
      addrs = split_commas [] (v.get_string (lit "redis-address"));
      namespace = v.get_string (lit "namespace");
      password = v.get_string (lit "redis-password");
    };
    http_port = v.get_int (lit "http-port");
    grpc_port = v.get_int (lit "grpc-port");
    storage_type = v.get_string (lit "storage-impl");
    queue_type = v.get_string (lit "queue-impl");
    encoder_decoder_type = v.get_string (lit "data-serializer");
    cluster_config = record {
      node_name = v.get_string (lit "node-name");
      bind_addr = v.get_string (lit "bind-address");
      cluster_tags = (lit "rpc_addr", rpc_addr) ∷ [];
      start_join_addrs = v.get_string_slice (lit "cluster-address");
      partition_count = v.get_int (lit "partitions");
    };
    batch_size = v.get_int (lit "batch-size");
    analytics_config = analytics_of (v.get_string (lit "analytics-output"));
  })
