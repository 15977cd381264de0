-- ===== src/Simulator/Cluster.antt =====
-- sim/crates/nemesis-sim/src/cluster.rs and config.rs: the cluster that the simulator builds, and
-- its synthetic samples. `F` is the type of `f32`s; `none` is a panic of a graph operation.
pub mod Names
pub mod Built
pub mod Pairs
pub mod Joined
pub mod Mesh
use Prim.Native.Char.{Char, char, code}
use Prim.Native.String.{String as Literal}
use nemesis.Prelude.{
  ℕ, zero, suc, ◌+◌, ◌*◌, ◌%◌, ◌^◌, true, false, List, [], ◌∷◌, ◌++◌, String, Option, none, some,
  Result, ok, err, and_then, map, if◌then◌else◌, ◌==◌, Text, decimal,
}
use nemesis.Nccl.Sim.{next_seed}
use nemesis.Graph.Petgraph.{UnGraph}
use nemesis.Graph.Cluster.{
  LinkKind, nv_link, pcie, infini_band, GpuNode, Link, ClusterGraph, new, add_gpu, add_link,
}

pub data TopologyKind : Type 0 where
  nvlink_full pcie_cross_node ib_chain : TopologyKind

pub record ClusterSpec (F : Type 0) : Type 0 where
  pub gpu_count : ℕ
  pub topology : TopologyKind
  pub nvlink_gbps : F
  pub ib_gbps : F

-- `D` is the type of `f64`s.
pub record SimConfig (F D : Type 0) : Type 0 where
  pub seed : ℕ
  pub time_scale : D
  pub port : ℕ
  pub cluster : ClusterSpec F

pub data ConfigError : Type 0 where
  no_gpus : ConfigError

pub record SimCluster (F G : Type 0) : Type 0 where
  pub graph : ClusterGraph G
  pub gpu_ids : List String
  pub config : ClusterSpec F
  pub seed : ℕ

-- The digit of a code point.
abbrev pub digit_char : ℕ → Char
digit_char c =
    if c == b'0'
    then char 48 tt
    else if c == b'1'
    then char 49 tt
    else if c == b'2'
    then char 50 tt
    else if c == b'3'
    then char 51 tt
    else if c == b'4'
    then char 52 tt
    else if c == b'5'
    then char 53 tt
    else if c == b'6'
    then char 54 tt
    else if c == b'7'
    then char 55 tt
    else if c == b'8'
    then char 56 tt
    else char 57 tt

abbrev pub digits_string : Text → String
digits_string [] = Literal.[]
digits_string (c ∷ s) = Literal.◌∷◌ (digit_char c) (digits_string s)

-- `format!("gpu-{i}")`.
unfoldable pub gpu_name : ℕ → String
gpu_name i = Literal.◌∷◌ (char 103 tt) (
    Literal.◌∷◌ (char 112 tt)
      (Literal.◌∷◌ (char 117 tt) (Literal.◌∷◌ (char 45 tt) (digits_string (decimal i)))))

abbrev pub names_from : ℕ → ℕ → List String
names_from i zero = []
names_from i (suc n) = gpu_name i ∷ names_from (suc i) n

-- The pairs of the two nested loops, and of the loop of a chain, in their order.
abbrev pub pairs_with : String → List String → List (String × String)
pairs_with a [] = []
pairs_with a (b ∷ bs) = (a, b) ∷ pairs_with a bs

abbrev pub all_pairs : List String → List (String × String)
all_pairs [] = []
all_pairs (a ∷ ids) = pairs_with a ids ++ all_pairs ids

abbrev pub neighbours : List String → List (String × String)
neighbours [] = []
neighbours (a ∷ []) = []
neighbours (a ∷ b ∷ ids) = (a, b) ∷ neighbours (b ∷ ids)

module _ {F G : Type 0} (lib : UnGraph GpuNode (Link F) G) where
  unfoldable pub add_gpus : ClusterGraph G → List String → Option (ClusterGraph G)
  unfolding add_gpu
  add_gpus c [] = some c
  add_gpus c (id ∷ ids) = and_then (add_gpu lib c id "node-0" 0) λ c'. add_gpus c' ids

  unfoldable pub add_links :
      LinkKind → F → ℕ → ClusterGraph G → List (String × String) → Option (ClusterGraph G)
  unfolding add_link
  add_links kind bandwidth hops c [] = some c
  add_links kind bandwidth hops c ((a, b) ∷ pairs) =
      and_then (add_link lib c a b kind bandwidth hops) λ c'. add_links kind bandwidth hops c' pairs

  -- The `match` on the topology; `gbps` is the literal of a bandwidth.
  unfoldable pub add_topology :
      (ℕ → F) → ClusterSpec F → List String → ClusterGraph G → Option (ClusterGraph G)
  unfolding add_links
  add_topology gbps spec ids c = elim spec.topology [
    | nvlink_full ↦ add_links nv_link spec.nvlink_gbps 0 c (all_pairs ids)
    | pcie_cross_node ↦ add_links pcie (gbps 64) 0 c (all_pairs ids)
    | ib_chain ↦ add_links infini_band spec.ib_gbps 1 c (neighbours ids)
  ]

  unfoldable pub from_config :
      {D : Type 0} → (ℕ → F) → SimConfig F D → Option (Result (SimCluster F G) ConfigError)
  unfolding add_gpus add_topology
  from_config gbps cfg =
      let spec = cfg.cluster in
      let ids = names_from 0 spec.gpu_count in
      let built = and_then (add_gpus (new lib) ids) λ c. add_topology gbps spec ids c in
      if spec.gpu_count == 0
      then some (err no_gpus)
      else and_then built
          λ c. some (ok (record { graph = c; gpu_ids = ids; config = spec; seed = cfg.seed }))

abbrev pub default_config : {F D : Type 0} → (ℕ → F) → D → SimConfig F D
default_config gbps one = record {
  seed = 42;
  time_scale = one;
  port = 50051;
  cluster = record {
    gpu_count = 8;
    topology = nvlink_full;
    nvlink_gbps = gbps 600;
    ib_gbps = gbps 200;
  };
}

-- What a sample takes of `f32`: a literal as a number of hundredths, sums and products, and the
-- jitter of a seed, `(seed as f64 / u64::MAX as f64) as f32 * 0.02`.
pub record Floats (F : Type 0) : Type 0 where
  pub hundredths : ℕ → F
  pub plus : F → F → F
  pub times : F → F → F
  pub jitter : ℕ → F

pub record MetricSample (F : Type 0) : Type 0 where
  pub gpu_id : String
  pub timestamp_ns : ℕ
  pub ecc_correctable_rate : F
  pub ecc_uncorrectable_rate : F
  pub temperature_celsius : F
  pub nvlink_bandwidth_gbps : F
  pub ib_bandwidth_gbps : F
  pub sm_utilization : F
  pub memory_bandwidth_utilization : F

-- The generator is the one of the simulated back end.
unfoldable pub sample_at :
    {F G : Type 0} → Floats F → SimCluster F G → String → ℕ → MetricSample F × SimCluster F G
unfolding next_seed
sample_at f sim gpu_id t_ns =
    let seed = next_seed sim.seed in
    let noise = f.jitter seed in
    (
      record {
        gpu_id = gpu_id;
        timestamp_ns = t_ns;
        ecc_correctable_rate = f.plus (f.hundredths 0) noise;
        ecc_uncorrectable_rate = f.hundredths 0;
        temperature_celsius = f.plus (f.hundredths 7_200) (f.times noise (f.hundredths 500));
        nvlink_bandwidth_gbps = f.times sim.config.nvlink_gbps (f.plus (f.hundredths 95) noise);
        ib_bandwidth_gbps = f.times sim.config.ib_gbps (f.plus (f.hundredths 98) noise);
        sm_utilization = f.plus (f.hundredths 85) noise;
        memory_bandwidth_utilization = f.plus (f.hundredths 78) noise;
      },
      record sim { seed = seed },
    )
