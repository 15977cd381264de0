-- ===== src/Graph/Tests.antt =====
-- The operations of the cluster graph on a small cluster.
use nemesis.Prelude.{
  get, ℕ, Bool, List, [], ◌∷◌, String, some, none, ◌≡◌, ◌≢◌, refl, leb, map, length,
}
use nemesis.Graph.Petgraph.Lists.{list_graph, list_graph-UnGraphLaws}
use nemesis.Graph.Cluster.{nv_link, add_link, gpu_id_at, candidates}
use nemesis.Graph.Clique.{enter, search_loop, clique_search, has_nvlink_edge, find_nvlink_clique}
use nemesis.Graph.Clique.Find.{
  IsNvlinkClique, find_nvlink_clique_sound, find_nvlink_clique_complete,
}
use nemesis.Graph.IbPath.{
  found, absent, out_of_fuel, find_ib_path, try_starts, dfs_ib_path, try_edges,
}
use nemesis.Graph.IbPath.Find.{
  IsPath, find_ib_path_sound, find_ib_path-ne-out_of_fuel, find_ib_path_complete,
}
use nemesis.Graph.Sample.{Graph, two, pair}

abbrev ge : ℕ → ℕ → Bool
ge a b = leb b a

abbrev linked : Graph
linked = record two {
  graph = record two.graph {
    links =
        (record {
          source = 0;
          target = 1;
          weight = record { kind = nv_link; bandwidth_gbps = 900; ib_hop_count = 0 };
        })
        ∷ [];
  };
}

added_link : add_link list_graph two "g0" "g1" nv_link 900 0 ≡ some linked
unfolding add_link get
added_link = refl

abbrev both : List String
both = "g0" ∷ "g1" ∷ []

clique_found : find_nvlink_clique list_graph ge pair 2 600 ≡ some both
unfolding find_nvlink_clique candidates clique_search enter search_loop has_nvlink_edge
clique_found = refl

no_faster_clique : find_nvlink_clique list_graph ge pair 2 1000 ≡ none
unfolding find_nvlink_clique candidates clique_search enter search_loop has_nvlink_edge
no_faster_clique = refl

find_nvlink_clique_sound_example :
    (nodes : List ℕ) × IsNvlinkClique list_graph ge pair 2 600 nodes
    × (both ≡ map (gpu_id_at list_graph pair.graph) nodes)
find_nvlink_clique_sound_example =
    find_nvlink_clique_sound list_graph ge pair 2 600 both clique_found

find_nvlink_clique_complete_example : ¬ IsNvlinkClique list_graph ge pair 2 1000 (0 ∷ 1 ∷ [])
find_nvlink_clique_complete_example =
    find_nvlink_clique_complete list_graph ge pair 2 1000 (0 ∷ 1 ∷ []) no_faster_clique

path_found : find_ib_path list_graph pair 2 1 ≡ found both
unfolding find_ib_path candidates try_starts dfs_ib_path try_edges
path_found = refl

no_shorter_path : find_ib_path list_graph pair 2 0 ≡ absent
unfolding find_ib_path candidates try_starts dfs_ib_path try_edges
no_shorter_path = refl

find_ib_path_sound_example :
    (nodes : List ℕ) × IsPath list_graph list_graph-UnGraphLaws pair 2 1 nodes
    × (length nodes ≡ 2)
    × (both ≡ map (gpu_id_at list_graph pair.graph) nodes)
find_ib_path_sound_example =
    find_ib_path_sound list_graph list_graph-UnGraphLaws pair 2 1 both path_found

find_ib_path-ne-out_of_fuel_example : find_ib_path list_graph pair 2 1 ≢ out_of_fuel
find_ib_path-ne-out_of_fuel_example =
    find_ib_path-ne-out_of_fuel list_graph list_graph-UnGraphLaws pair 2 1

find_ib_path_complete_example : ¬ IsPath list_graph list_graph-UnGraphLaws pair 2 0 (0 ∷ 1 ∷ [])
find_ib_path_complete_example =
    find_ib_path_complete list_graph list_graph-UnGraphLaws pair 2 0 0 (1 ∷ []) no_shorter_path refl
