-- ===== src/Evidence/Screening.antt =====
-- app/evidence/screening.py: the verdict of a subscriber's requirements on a job, in Python and in SQL.
pub mod Facts
pub mod Findings
pub mod Evaluate
pub mod Sql
pub mod Conditions
pub mod BucketExpression
pub mod ThreeValued
pub mod PayRows
pub mod Equivalence
pub mod Buckets
pub mod Matches
mod Examples
