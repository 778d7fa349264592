-- ===== src/Leased/Tests.antt =====
-- The leased worker over a database that fails no call, and the list of the messages on two of them.
use cybou_db.Prelude.{ℕ, List, codes}
use cybou_db.Leased.Tickets.{Ticket}

abbrev alpha : List ℕ
alpha = codes "alpha"

abbrev its_ticket : Ticket
its_ticket = record { position = 0; token = 1; payload = alpha }

-- Two messages wait; the second CLAIM comes at 20, and gets the other.
abbrev second_ticket : Ticket
second_ticket = record { position = 1; token = 1; payload = codes "beta" }
