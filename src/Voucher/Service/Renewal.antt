-- ===== src/Voucher/Service/Renewal.antt =====
-- The validity that `update` asks the chain for, and the one it writes to the row.
use smartcupleague.Prelude.{nat_eq}
use smartcupleague.Voucher.Backend.{Backend, Voucher}
