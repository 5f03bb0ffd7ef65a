-- ===== src/Net/IdBits.antt =====
-- idToBitSet of src/plugins/net_plugin/include/user_pool_manager.hpp.
use Prim.Native.Char.{code}
use Prim.Native.String.{[], ◌∷◌}
use gruut.Base.{String, Bool, false, List, ◌++◌, ◌-◌, length}
use gruut.Net.Bitset.{Bitset, byte_bits, resize, falses}

abbrev bits_str : String → List Bool
bits_str [] = List.[]
bits_str (c ∷ s) = byte_bits (code c) ++ bits_str s

-- bitset<256>(bits_str): the first 256 characters, or zeros before them if there are fewer.
unfoldable pub id_to_bitset : String → Bitset
id_to_bitset id = let bits = bits_str id in resize 256 false (falses (256 - length bits) ++ bits)
