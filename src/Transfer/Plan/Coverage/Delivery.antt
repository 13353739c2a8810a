-- ===== src/Transfer/Plan/Coverage/Delivery.antt =====
-- awex/transfer/transfer_plan.py: the operations that `_build_parameter_communication_plan` makes
-- for one pair of replicas, seen cell by cell.
