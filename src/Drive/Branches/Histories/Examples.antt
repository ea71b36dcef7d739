-- ===== src/Drive/Branches/Histories/Examples.antt =====
-- A history of the empty store, and the theorems about histories at it.
use casfa.Base.{◌≡◌, refl, some, none, List, [], ◌∷◌, All}
use casfa.Encoding.Cb32.{codes}
use casfa.Storage.{Key}
use casfa.Drive.Branches.{Branch}
use casfa.Drive.Branches.Memory.{MemoryBranches, get_branch, get_realm_root, get_realm_root_record}
use casfa.Drive.Branches.Memory.Realms.{HasRealms}
use casfa.Drive.Branches.Histories.{
  Change, ensures, inserts, sets, sets_realm, removes, purges, apply, run, AllFresh, run-HasRealms,
}
use casfa.Drive.Branches.Histories.Rooted.{Spares, run-rooted}

abbrev empty : MemoryBranches
empty = record { branches = []; roots = []; realm_root_branch_id = [] }

empty-HasRealms : HasRealms empty
unfolding casfa.Maps.map_get
empty-HasRealms = record { branches_map = tt; realms_map = tt; owned = λ realm id e. cc }

abbrev child : Branch
child = record {
  branch_id = codes "c";
  realm_id = codes "u";
  parent_id = some (codes "r");
  expires_at = 50;
  access_verification = none;
}

-- The realm "u" gets a root and a branch, which expires; then the realm "v" comes.
abbrev later : List Change
later =
    inserts child
    ∷ sets (codes "c") (codes "L")
    ∷ sets_realm (codes "u") (codes "M")
    ∷ purges 60
    ∷ ensures (codes "v") (codes "E") (codes "q")
    ∷ removes (codes "c")
    ∷ []

abbrev first : Change
first = ensures (codes "u") (codes "E") (codes "r")

history-AllFresh : AllFresh empty (first ∷ later)
unfolding apply get_branch casfa.Maps.map_get casfa.Maps.map_set casfa.Maps.map_delete
    casfa.Storage.same_key casfa.Drive.Branches.Memory.purge_loop
    casfa.Drive.Branches.Memory.forget_realm get_realm_root_record
history-AllFresh = (refl, (refl, (tt, (tt, (tt, (refl, (tt, tt)))))))

run-HasRealms_example : HasRealms (run empty (first ∷ later))
run-HasRealms_example = run-HasRealms empty (first ∷ later) empty-HasRealms history-AllFresh

later-Spares : All (Spares (codes "r")) later
unfolding casfa.Storage.same_key
later-Spares = (tt, (tt, (tt, (tt, (tt, (refl, tt))))))

abbrev begun : MemoryBranches
begun = run empty (first ∷ [])

begun-AllFresh : AllFresh begun later
unfolding run
begun-AllFresh = history-AllFresh.1

begun-HasRealms : HasRealms begun
begun-HasRealms = run-HasRealms empty (first ∷ []) empty-HasRealms (history-AllFresh.0, tt)

begun-root_record : get_realm_root_record begun (codes "u") ≡ some (codes "r")
unfolding run apply get_realm_root_record casfa.Maps.map_get casfa.Maps.map_set
    casfa.Storage.same_key
begun-root_record = refl

begun-root : get_realm_root begun (codes "u") ≡ some (codes "E")
unfolding run apply get_realm_root get_realm_root_record casfa.Maps.map_get casfa.Maps.map_set
    casfa.Storage.same_key
begun-root = refl

run-rooted_example :
    (get_realm_root_record (run begun later) (codes "u") ≡ some (codes "r"))
    × ((left : Key) × (get_realm_root (run begun later) (codes "u") ≡ some left))
run-rooted_example =
    run-rooted begun later (codes "u") b'r' [] (codes "E") begun-HasRealms begun-AllFresh
      later-Spares begun-root_record begun-root
