-- ===== src/Votes.antt =====
-- What the two vote services share: `collections.Counter`, stable sorting, and the loop that collects
-- the signatures of the winning votes (rewards/service.py, distributor/service.py).
pub mod Counter
pub mod Sorting
pub mod Signatures
