-- ===== src/Sampler.antt =====
-- The three samplers (resources.go, network.go, latency.go) and the loop that streams their series
-- (`StateSampler` of plaklet.go). `Buffer` is what the samplers share: the fields `samples`,
-- `stride` and `tick` of each struct, the gate that lets one call in `stride` through, and the
-- append that halves the resolution of a full buffer.
pub mod Buffer
pub mod Spacing
pub mod Resources
pub mod Network
pub mod Latencies
pub mod Series
