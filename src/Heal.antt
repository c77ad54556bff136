-- ===== src/Heal.antt =====
-- pkg/operator/heal: the member heal center. The repair runs over a `Triple`, the instances, nodes
-- and master resources joined by their ids.
pub mod Triple
pub mod Operation
pub mod Healet
pub mod Events
