-- ===== src/Core/Findings/Stored/Counts.antt =====
-- The counters and the list of the shares that could not be read.
use samfscon.Prelude.{◌+◌, ◌≡◌, List, [], ◌∷◌, arith, length}
use samfscon.Core.Findings.Types.{Share}
use samfscon.Core.Findings.Stored.{unreadable_shares, count_readable, coverage}

count-unreadable :
    (entries : List Share)
    → count_readable entries + length (unreadable_shares entries) ≡ length entries
unfolding count_readable unreadable_shares
count-unreadable [] = omega arith
count-unreadable (entry ∷ entries) = ground (arith, count-unreadable entries)

-- The counters of `coverage` agree with the list of `unreadable_shares`: it has as many entries as
-- `shares_without_readable_configuration` says, and with the readable ones they make up the total.
pub coverage-unreadable_shares :
    (entries : List Share)
    → ((coverage entries).shares_without_readable_configuration
        ≡ length (unreadable_shares entries))
      × ((coverage entries).shares_with_readable_configuration
            + (coverage entries).shares_without_readable_configuration
          ≡ (coverage entries).shares_total)
unfolding coverage
coverage-unreadable_shares entries =
    (omega (arith, count-unreadable entries), omega (arith, count-unreadable entries))
