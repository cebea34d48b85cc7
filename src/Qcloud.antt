-- ===== src/Qcloud.antt =====
-- pkg/cloudproviders/qcloud, the provider for Tencent Cloud, with the parts of pkg/cloudsdk/qcloud
-- that it calls.
pub mod Regions
pub mod ProviderId
pub mod State
pub mod NodePrice
pub mod Breakdown
pub mod Pricing
pub mod Cache
pub mod Client
pub mod Platform
pub mod Specs
pub mod Serverless
