-- ===== src/Recommender.antt =====
-- pkg/reco/reco.go: the recommender that simulates the autoscaler on past CPU utilization.
pub mod Simulation
pub mod Optimum
pub mod Recommend
