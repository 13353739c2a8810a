-- ===== src/Transfer/Plan/Coverage/Once.antt =====
-- awex/meta/meta_resolver.py and awex/transfer/transfer_plan.py together: the replicas that the
-- resolver places, and the operations that the planner makes for two of them.
