-- ===== src/Tests.antt =====
-- Runs of the model, and the theorems at concrete data.
mod Numbers
mod Prom
mod Sort
mod Config
mod Qcloud
mod Client
mod Coster
mod Plugins
mod DataSource
mod DefaultCloud
mod Comparator
mod Workloads
