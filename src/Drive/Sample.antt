-- ===== src/Drive/Sample.antt =====
-- A small drive over the CAS facade, for the tests: a root with an empty dict under the name "d".
use casfa.Base.{ℕ, ◌+◌, ◌%◌, [], ◌∷◌, Bytes, length, replicate, refl, arith}
use casfa.Core.Text.{ascii_decoder}
use casfa.Core.Node.{encode_successor_node}
use casfa.Core.Node.Directory.{dict_node_bytes}
use casfa.Controller.{hash_to_key}
use casfa.Controller.RoundTrip.{IsKeyProvider}
use casfa.Encoding.Cb32.{codes}
use casfa.Storage.{Key}
use casfa.Storage.Memory.{Table}
use casfa.Storage.Memory.Laws.{memory_storage}
use casfa.Cas.ToyJson.{toy_json}
use casfa.Cas.Facade.{CasFacade, create_cas_facade}

abbrev pub sum : Bytes → ℕ
sum [] = 0
sum (b ∷ bs) = b + sum bs

-- A key that tells the nodes below apart.
abbrev pub sum_key : Bytes → Bytes
sum_key b = length b % 256 ∷ sum b % 256 ∷ replicate 14 0

pub sum_key-IsKeyProvider : IsKeyProvider sum_key
sum_key-IsKeyProvider = record { size = λ b. refl; bytes = λ b. omega arith }

abbrev pub cas : CasFacade sum_key
cas = create_cas_facade memory_storage toy_json ascii_decoder sum_key (λ tick. 1000 + tick)

abbrev pub leaf_bytes : Bytes
leaf_bytes = (encode_successor_node sum_key (7 ∷ []) []).bytes

-- An empty dict, and a root with it under the name "d".
abbrev pub empty_bytes : Bytes
empty_bytes = dict_node_bytes [] []

abbrev pub root_bytes : Bytes
root_bytes = dict_node_bytes ((codes "d", sum_key empty_bytes) ∷ []) (1 ∷ 0 ∷ b'd' ∷ [])

abbrev pub files : Table
files =
    (hash_to_key (sum_key leaf_bytes), leaf_bytes)
    ∷ (hash_to_key (sum_key empty_bytes), empty_bytes)
    ∷ (hash_to_key (sum_key root_bytes), root_bytes)
    ∷ []

abbrev pub root_key : Key
root_key = hash_to_key (sum_key root_bytes)

abbrev pub leaf_key : Key
leaf_key = hash_to_key (sum_key leaf_bytes)
