-- ===== src/Conditions.antt =====
-- adminos/domain/conditions.py: what a rule matches on. The fields, the operators and one condition
-- are in Conditions/Fields and Conditions/Leaf, the condition trees in Conditions/Tree, the facts of
-- an email in Conditions/Facts; the other children are the proofs.
pub mod Fields
pub mod Leaf
pub mod Tree
pub mod Facts
pub mod Breadth
pub mod Explains
