-- ===== src/Blockchain/Manager/Sort.antt =====
-- `notarized_chains.sort_by(|a, b| b.length().cmp(&a.length()))`: a stable sort, longest first.
use streamlet_transparency_l.Prelude.{List, [], ◌∷◌}
use streamlet_transparency_l.Prelude.Tests.{leb, if◌then◌else◌}
use streamlet_transparency_l.Blockchain.Chain.{LocalChain}
use streamlet_transparency_l.Blockchain.Chain

-- Puts a chain before those that are no longer than it.
unfoldable pub insert_by_length : LocalChain → List LocalChain → List LocalChain
insert_by_length chain [] = chain ∷ []
insert_by_length chain (other ∷ rest) =
    if leb (Chain.length other) (Chain.length chain)
    then chain ∷ other ∷ rest
    else other ∷ insert_by_length chain rest

unfoldable pub sort_by_length : List LocalChain → List LocalChain
unfolding insert_by_length
sort_by_length [] = []
sort_by_length (chain ∷ chains) = insert_by_length chain (sort_by_length chains)
