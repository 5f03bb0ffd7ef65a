-- ===== src/Net/IdMapping.antt =====
-- The ids of the nodes that users are reached through: src/plugins/net_plugin/id_mapping_table.cpp. The
-- order of its unordered_map is that of the list; a hash stands as a text.
use gruut.Base.{
  String, Option, none, some, [], ◌∷◌, str_eq, if◌then◌else◌, Assoc, at, insert_or_assign, erase,
}

abbrev pub IdMappingTable : Type 0
IdMappingTable = Assoc String

-- try_emplace: an entry that is there stays.
unfoldable pub map_id : (String → String) → String → String → IdMappingTable → IdMappingTable
map_id sha1 b58_user_id net_id table = elim (at b58_user_id table) [
  | none ↦ insert_or_assign b58_user_id (sha1 net_id) table
  | some h ↦ table
]

unfoldable pub unmap_id : String → IdMappingTable → IdMappingTable
unmap_id b58_user_id table = erase b58_user_id table

abbrev user_of : String → IdMappingTable → Option String
user_of dead_hashed_id [] = none
user_of dead_hashed_id ((id, h) ∷ table) =
    if str_eq h dead_hashed_id then some id else user_of dead_hashed_id table

-- The other overload: it unmaps the first user with that node only.
unfoldable pub unmap_hashed_id : String → IdMappingTable → IdMappingTable
unmap_hashed_id dead_hashed_id table = elim (user_of dead_hashed_id table) [
  | none ↦ table
  | some id ↦ unmap_id id table
]

unfoldable pub get_hashed_id : String → IdMappingTable → Option String
get_hashed_id id table = at id table
